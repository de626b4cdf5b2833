-- ===== src/Broker/Streams.antt =====
-- asty/internal/agent/natssolo.go: the streams on disk are set to one replica. `replace` is the
-- replacement of the replica counts in a file, `hash` the HighwayHash of a file keyed by a name, or
-- `none` where the key is refused.
use asty.Common.{
  Bool, true, false, Option, none, some, List, [], ◌∷◌, ◌++◌, Text, codes, same, if◌then◌else◌,
}
use asty.Broker.Files.{Host, dir_of, base_of}

pub data Failure : Type 0 where
  unread no_sum unwritten sum_unwritten : Failure

module _ {B : Type 0} (h : Host B) (replace : Text → Text) (hash : Text → Text → Option Text) where
  unfoldable pub meta_sum : Text → Text → Text
  meta_sum stream content = elim (hash stream content) [ none ↦ [] | some sum ↦ sum ]

  unfoldable pub sum_path : Text → Text
  unfolding dir_of
  sum_path path = dir_of path ++ codes "/meta.sum"

  unfoldable pub sum_written : Bool × B → (Bool × Option Failure) × B
  sum_written (false, b) = ((true, some sum_unwritten), b)
  sum_written (true, b) = ((true, none), b)

  unfoldable pub meta_written : Text → Text → Bool × B → (Bool × Option Failure) × B
  unfolding sum_written sum_path
  meta_written path sum (false, b) = ((false, some unwritten), b)
  meta_written path sum (true, b) = sum_written (h.write (sum_path path) sum b)

  -- The two writes; the answer is whether the stream changed, and the error.
  unfoldable pub write_both : Text → Text → Text → B → (Bool × Option Failure) × B
  unfolding meta_written
  write_both path edited sum b = meta_written path sum (h.write path edited b)

  unfoldable pub edit_meta : Text → Text → Text → B → (Bool × Option Failure) × B
  unfolding write_both meta_sum
  edit_meta path stream content b =
      let written = write_both path (replace content) (meta_sum stream (replace content)) b in
      if same (replace content) content
      then ((false, none), b)
      else if same (meta_sum stream (replace content)) []
      then ((false, some no_sum), b)
      else written

  unfoldable pub force_stream_meta_to_r1 : Text → Text → B → (Bool × Option Failure) × B
  unfolding edit_meta
  force_stream_meta_to_r1 path stream b = elim (h.read path b) [
    | none ↦ ((false, some unread), b)
    | some content ↦ edit_meta path stream content b
  ]

  -- The loop of `forceStreamsToR1`: an error is logged, the RAFT log of the stream is dropped.
  unfoldable pub force_streams : List Text → B → B
  unfolding force_stream_meta_to_r1 base_of dir_of
  force_streams [] b = b
  force_streams (path ∷ paths) b =
      let stream = base_of (dir_of path) in
      let b₁ = (force_stream_meta_to_r1 path stream b).1 in
      force_streams paths (h.remove_all (dir_of path ++ codes "/_meta_") b₁).1

  unfoldable pub force_streams_to_r1 : B → B
  unfolding force_streams
  force_streams_to_r1 b = elim (h.glob b) [ none ↦ b | some paths ↦ force_streams paths b ]

  unfoldable pub remove_dirs : List Text → B → B
  remove_dirs [] b = b
  remove_dirs (d ∷ ds) b = remove_dirs ds (h.remove_all d b).1

  unfoldable pub drop_all_raft_state : B → B
  unfolding remove_dirs
  drop_all_raft_state b = remove_dirs (h.meta_dirs b) b
