-- ===== src/Artifact/Contained.antt =====
-- Where an extraction writes.
use asty.Common.{
  ◌≡◌, refl, sym, subst, ◌⊎◌, inl, inr, Bool, true, false, Option, none, some, List, [], ◌∷◌, ◌++◌,
  Text, All, arith, reverse, same, has_prefix, Bool-cases,
}
use mathlib.Core.List.{reverse-cons}
use asty.Gateway.Routing.{split}
use asty.Broker.Conf.{join_texts}
use asty.Broker.Files.{has_slash, dir_of}
use asty.Artifact.Paths.{slash, dots, is_rooted, entered, walk, rooted_parts, clean, join}
use asty.Artifact.Extract.{
  Kind, directory, regular, unsupported, Entry, Archive, end_of_archive, bad_header, entry_then,
  Fault, FileSystem, written_in, extract_file, extract_kind, extract_entry, continued, extract_all,
  opened_in, extract,
}

-- No component of a path is the one of two dots.
abbrev pub Plain : List Text → Type 0
Plain parts = All (λ part. same part dots ≡ false) parts

tail_of : List Text → List Text
tail_of [] = []
tail_of (d ∷ ds) = ds

entered_cases :
    (done : List Text) (part : Text)
    → (entered done part ≡ done)
      ⊎ (entered done part ≡ tail_of done)
      ⊎ ((same part dots ≡ false) × (entered done part ≡ part ∷ done))
unfolding entered tail_of
entered_cases [] part = ground arith
entered_cases (d ∷ ds) part = ground arith

tail_of-Plain : (done : List Text) → Plain done → Plain (tail_of done)
unfolding tail_of
tail_of-Plain [] a = a
tail_of-Plain (d ∷ ds) a = a.1

entered-Plain : (done : List Text) (part : Text) → Plain done → Plain (entered done part)
entered-Plain done part a = elim (entered_cases done part) [
  | inl e ↦ subst Plain (sym e) a
  | inr (inl e) ↦ subst Plain (sym e) (tail_of-Plain done a)
  | inr (inr e) ↦ subst Plain (sym e.1) (e.0, a)
]

walk-Plain : (parts done : List Text) → Plain done → Plain (walk entered done parts)
unfolding walk
walk-Plain [] done a = a
walk-Plain (part ∷ parts) done a = walk-Plain parts (entered done part) (entered-Plain done part a)

has_slash-prefix : (p d : Text) → has_prefix p (d ++ slash) ≡ true → has_slash p ≡ true
unfolding has_prefix has_slash
has_slash-prefix [] [] h = ground (arith, h)
has_slash-prefix [] (c ∷ d) h = ground (arith, h)
has_slash-prefix (c ∷ p) [] h = ground (arith, h)
has_slash-prefix (c ∷ p) (e ∷ d) h = ground (arith, h, has_slash-prefix p d)

dir_of-prefix :
    (p d : Text)
    → has_prefix p (d ++ slash) ≡ true
    → (dir_of p ≡ d) ⊎ (has_prefix (dir_of p) (d ++ slash) ≡ true)
unfolding has_prefix dir_of
dir_of-prefix [] [] h = ground (arith, h)
dir_of-prefix [] (c ∷ d) h = ground (arith, h)
dir_of-prefix (c ∷ p) [] h = ground (arith, h)
dir_of-prefix (c ∷ p) (e ∷ d) h = ground (arith, h, has_slash-prefix p d, dir_of-prefix p d)

Plain-append : (xs ys : List Text) → Plain xs → Plain ys → Plain (xs ++ ys)
Plain-append [] ys a b = b
Plain-append (x ∷ xs) ys a b = (a.0, Plain-append xs ys a.1 b)

Plain-reverse : (xs : List Text) → Plain xs → Plain (reverse xs)
Plain-reverse [] a = a
Plain-reverse (x ∷ xs) a =
    subst Plain (sym (reverse-cons x xs))
      (Plain-append (reverse xs) (x ∷ []) (Plain-reverse xs a.1) (a.0, tt))

-- Below the directory: behind it and a slash, from the root, and with no component that leads up.
pub record IsInside (dest path : Text) : Type 0 where
  pub prefix : has_prefix path (clean dest ++ slash) ≡ true
  pub parts : List Text
  pub from_root : path ≡ 47 ∷ join_texts slash parts
  pub plain : Plain parts

-- The directory itself, as it was given or cleaned, or a path behind it and a slash.
pub IsWithin : Text → Text → Type 0
IsWithin dest path =
    (path ≡ dest) ⊎ (path ≡ clean dest) ⊎ (has_prefix path (clean dest ++ slash) ≡ true)

clean-rooted : (p : Text) → is_rooted p ≡ true → clean p ≡ 47 ∷ join_texts slash (rooted_parts p)
unfolding clean
clean-rooted p h = rw h refl

rooted_parts-Plain : (p : Text) → Plain (rooted_parts p)
unfolding rooted_parts
rooted_parts-Plain p = Plain-reverse _ (walk-Plain (split 47 p) [] tt)

is_rooted-append : (p q : Text) → is_rooted p ≡ true → is_rooted (p ++ q) ≡ true
unfolding is_rooted
is_rooted-append [] q h = ground (arith, h)
is_rooted-append (c ∷ p) q h = h

join-IsInside :
    (dest name : Text)
    → is_rooted dest ≡ true
    → has_prefix (join dest name) (clean dest ++ slash) ≡ true
    → IsInside dest (join dest name)
unfolding join
join-IsInside dest name r h = elim (Bool-cases (same name [])) [
  | inl e ↦ record {
    prefix = h;
    parts = rooted_parts dest;
    from_root = rw e (clean-rooted dest r);
    plain = rooted_parts-Plain dest;
  }
  | inr e ↦ record {
    prefix = h;
    parts = rooted_parts (dest ++ slash ++ name);
    from_root =
        rw e
          (clean-rooted _ (is_rooted-append (dest ++ slash) name (is_rooted-append dest slash r)));
    plain = rooted_parts-Plain (dest ++ slash ++ name);
  }
]

module _ {B : Type 0} (fs : FileSystem B) (dest : Text) (P : B → Type 0)
    (made : (path : Text) (b : B) → IsWithin dest path → P b → P (fs.mkdir_all path b).1)
    (written : (path content : Text) (b : B)
      → IsInside dest path
      → P b
      → P (fs.write_file path content b).1)
    (rooted : is_rooted dest ≡ true) where
  written_in-Keeps :
      (path content : Text) (r : Bool × B)
      → IsInside dest path
      → P r.1
      → P (written_in fs path content r).1
  unfolding written_in
  written_in-Keeps path content (false, b) i p = p
  written_in-Keeps path content (true, b) i p = written path content b i p

  extract_kind-Keeps :
      (k : Kind) (path : Text) (b : B) → IsInside dest path → P b → P (extract_kind fs k path b).1
  unfolding extract_kind extract_file IsWithin
  extract_kind-Keeps directory path b i p = made path b (inr (inr i.prefix)) p
  extract_kind-Keeps (regular content) path b i p =
      written_in-Keeps path content _ i
        (made (dir_of path) b (inr (dir_of-prefix path (clean dest) i.prefix)) p)
  extract_kind-Keeps unsupported path b i p = p

  extract_entry-Keeps : (e : Entry) (b : B) → P b → P (extract_entry fs dest e b).1
  unfolding extract_entry
  extract_entry-Keeps e b p =
      elim (Bool-cases (has_prefix (join dest e.name) (clean dest ++ slash))) [
        | inl h ↦ rw h (extract_kind-Keeps e.kind _ b (join-IsInside dest e.name rooted h) p)
        | inr h ↦ rw h p
      ]

  continued-Keeps :
      (rest : B → Option Fault × B) (r : Option Fault × B)
      → ((b : B) → P b → P (rest b).1)
      → P r.1
      → P (continued fs rest r).1
  unfolding continued
  continued-Keeps rest (some f, b) k p = p
  continued-Keeps rest (none, b) k p = k b p

  extract_all-Keeps : (a : Archive) (b : B) → P b → P (extract_all fs dest a b).1
  unfolding extract_all
  extract_all-Keeps end_of_archive b p = p
  extract_all-Keeps bad_header b p = p
  extract_all-Keeps (entry_then e rest) b p =
      continued-Keeps _ _ (extract_all-Keeps rest) (extract_entry-Keeps e b p)

  opened_in-Keeps : (o : Option Archive) (r : Bool × B) → P r.1 → P (opened_in fs dest o r).1
  unfolding opened_in
  opened_in-Keeps o (false, b) p = p
  opened_in-Keeps none (true, b) p = p
  opened_in-Keeps (some a) (true, b) p = extract_all-Keeps a b p

  -- Whatever holds of the host and is kept by making directories within the directory and by writing
  -- files below it, with no component that leads up, is kept by an extraction into it of any archive,
  -- where the directory is a rooted path.
  pub extract-Keeps : (o : Option Archive) (b : B) → P b → P (extract fs dest o b).1
  unfolding extract IsWithin
  extract-Keeps o b p = opened_in-Keeps o _ (made dest b (inl refl) p)
