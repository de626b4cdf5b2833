-- ===== src/Artifact/Paths.antt =====
-- `filepath.Join` and `filepath.Clean` on a directory and a name, as extract.go uses them.
use asty.Common.{Bool, false, ◌==◌, ◌||◌, List, [], ◌∷◌, ◌++◌, reverse, Text, same, if◌then◌else◌}
use asty.Gateway.Routing.{split}
use asty.Broker.Conf.{join_texts}

abbrev pub slash : Text
slash = 47 ∷ []

abbrev pub dots : Text
dots = 46 ∷ 46 ∷ []

unfoldable pub is_rooted : Text → Bool
is_rooted [] = false
is_rooted (c ∷ p) = c == 47

-- One component of a rooted path: an empty one and a dot are dropped, two dots drop the last one.
unfoldable pub entered : List Text → Text → List Text
entered done part =
    if same part [] || same part (46 ∷ [])
    then done
    else if same part dots
    then elim done [ [] ↦ [] | d ∷ ds ↦ ds ]
    else part ∷ done

-- One component of a path that is not rooted: two dots stay where there is nothing to drop.
unfoldable pub entered_relative : List Text → Text → List Text
entered_relative done part =
    if same part [] || same part (46 ∷ [])
    then done
    else if same part dots
    then elim done [ [] ↦ dots ∷ [] | d ∷ ds ↦ if same d dots then dots ∷ d ∷ ds else ds ]
    else part ∷ done

-- The components that remain, the last one first.
unfoldable pub walk : (List Text → Text → List Text) → List Text → List Text → List Text
walk step done [] = done
walk step done (part ∷ parts) = walk step (step done part) parts

unfoldable pub rooted_parts : Text → List Text
unfolding walk entered
rooted_parts p = reverse (walk entered [] (split 47 p))

unfoldable pub relative_parts : Text → List Text
unfolding walk entered_relative
relative_parts p = reverse (walk entered_relative [] (split 47 p))

unfoldable pub clean : Text → Text
unfolding is_rooted rooted_parts relative_parts join_texts
clean p =
    let rooted : Text = 47 ∷ join_texts slash (rooted_parts p) in
    let relative : Text = elim (relative_parts p) [
      | [] ↦ 46 ∷ []
      | q ∷ qs ↦ join_texts slash (q ∷ qs)
    ] in
    if is_rooted p then rooted else relative

-- `filepath.Join` of a directory that is not empty.
unfoldable pub join : Text → Text → Text
unfolding clean
join dir name = if same name [] then clean dir else clean (dir ++ slash ++ name)
