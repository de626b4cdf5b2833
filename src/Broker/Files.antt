-- ===== src/Broker/Files.antt =====
-- The host of a node as the agent uses it for the broker: files, the broker's process, its network.
use asty.Common.{
  ◌≡◌, Bool, true, false, ◌==◌, Option, some, List, [], ◌∷◌, Text, same, if◌then◌else◌, any,
}
use asty.Common.Int.{ℤ}
use asty.Broker.Conf.{is_clustered}

-- `B` is the state of the host. A write, a removal, a reload and a start answer whether they succeed;
-- `spawn` starts the broker and waits until it accepts connections, `halt` stops it, `hang_up` sends
-- it SIGHUP. `glob` lists the `meta.inf` files of the streams, `meta_dirs` the outermost directories
-- called `_meta_`; `none` is an error.
pub record Host (B : Type 0) : Type 0 where
  pub read : Text → B → Option Text
  pub write : Text → Text → B → Bool × B
  pub remove_all : Text → B → Bool × B
  pub glob : B → Option (List Text)
  pub meta_dirs : B → List Text
  pub dial : Text → ℤ → B → Bool
  pub find_binary : B → Bool
  pub resolve_ip : B → Text
  pub spawn : B → Bool × B
  pub hang_up : B → Bool × B
  pub halt : B → B

-- What the host keeps to: a write that succeeds stores the content in that file only; a reload and a
-- stop touch no file; a broker that starts takes its mode, clustered or not, from the configuration
-- file, and a reload that is accepted does not change the mode.
pub record IsHost {B : Type 0} (h : Host B) (conf_path : Text) (mode : B → Bool) : Type 0 where
  pub write_own : (p c : Text) (b b' : B) → h.write p c b ≡ (true, b') → h.read p b' ≡ some c
  pub write_other :
      (p c : Text) (b b' : B)
      → h.write p c b ≡ (true, b')
      → (q : Text) → same p q ≡ false
      → h.read q b' ≡ h.read q b
  pub write_mode : (p c : Text) (b : B) → mode (h.write p c b).1 ≡ mode b
  pub hang_up_file : (b : B) (q : Text) → h.read q (h.hang_up b).1 ≡ h.read q b
  pub hang_up_mode : (b b' : B) → h.hang_up b ≡ (true, b') → mode b' ≡ mode b
  pub spawn_file : (b : B) (q : Text) → h.read q (h.spawn b).1 ≡ h.read q b
  pub spawn_mode :
      (b b' : B) (c : Text)
      → h.spawn b ≡ (true, b')
      → h.read conf_path b ≡ some c
      → mode b' ≡ is_clustered c

-- `filepath.Dir` and `filepath.Base` of a clean path.
unfoldable pub has_slash : Text → Bool
has_slash p = any (λ c. c == 47) p

unfoldable pub dir_of : Text → Text
unfolding has_slash
dir_of [] = []
dir_of (c ∷ p) = let rest = dir_of p in if has_slash p then c ∷ rest else []

unfoldable pub base_of : Text → Text
unfolding has_slash
base_of [] = []
base_of (c ∷ p) = let rest = base_of p in if has_slash (c ∷ p) then rest else c ∷ p
