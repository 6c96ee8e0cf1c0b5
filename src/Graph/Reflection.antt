-- ===== src/Graph/Reflection.antt =====
-- The nodes `reflect` and `approval` of services/orchestrator/graph.py, and
-- `collect_prior_reflections`. The diagnosis is the model's, and the decision the user's; a KeyError is
-- `none`.
use labmate.Common.{
  ℕ, ◌≤◌, ◌≡◌, refl, Bool, false, Option, none, some, List, [], ◌∷◌, ◌++◌, if◌then◌else◌, Text,
  text_eq, text_eq_iff, length, length-drop, append-nil, arith, ◌-◌, ◌==◌,
}
use labmate.LoopDetection.{last_slice}
use labmate.Goals.{Tree, pending, in_progress, blocked, update_status}

-- A message of the graph's state: a reflection on a goal, or any other.
pub data Entry : Type 0 where
  reflection : Text → Text → Entry
  other_entry : Entry

-- The reflections on the goal, in order.
unfoldable pub reflections_on : Text → List Entry → List Text
reflections_on gid [] = []
reflections_on gid (other_entry ∷ es) = reflections_on gid es
reflections_on gid (reflection goal content ∷ es) =
    let rest = reflections_on gid es in if text_eq goal gid then content ∷ rest else rest

unfoldable pub collect_prior_reflections : List Entry → Text → ℕ → List Text
unfolding last_slice
collect_prior_reflections messages gid limit =
    if limit == 0 then [] else last_slice limit (reflections_on gid messages)

-- `reflect`: the tree and the messages that it leaves; `now` is the time of the update.
unfoldable pub reflect : Text → Text → Text → Tree → List Entry → Option (Tree × List Entry)
reflect now gid diagnosis tree messages = elim (update_status now tree gid pending (λ g. g)) [
  | none ↦ none
  | some tree' ↦ some (tree', messages ++ reflection gid diagnosis ∷ [])
]

unfoldable pub approval : Text → Text → Bool → Tree → Option Tree
approval now gid approved tree =
    update_status now tree gid (if approved then in_progress else blocked) (λ g. g)

reflections_on-append :
    (gid : Text) (es fs : List Entry)
    → reflections_on gid (es ++ fs) ≡ reflections_on gid es ++ reflections_on gid fs
unfolding reflections_on
reflections_on-append gid [] fs = refl
reflections_on-append gid (other_entry ∷ es) fs = reflections_on-append gid es fs
reflections_on-append gid (reflection goal content ∷ es) fs =
    ground (arith, reflections_on-append gid es fs)

-- After a reflection on a goal, the goal's reflections end with it, at most `limit` of them; those on
-- another goal stay as they are.
reflection_is_remembered :
    (gid another diagnosis : Text) (messages : List Entry) (limit : ℕ)
    → 1 ≤ limit
    → text_eq gid another ≡ false
    → (collect_prior_reflections (messages ++ reflection gid diagnosis ∷ []) gid limit
        ≡ last_slice limit (reflections_on gid messages ++ diagnosis ∷ []))
      × (length (collect_prior_reflections (messages ++ reflection gid diagnosis ∷ []) gid limit)
          ≤ limit)
      × (collect_prior_reflections (messages ++ reflection gid diagnosis ∷ []) another limit
          ≡ collect_prior_reflections messages another limit)
unfolding collect_prior_reflections reflections_on last_slice
reflection_is_remembered gid another diagnosis messages limit h differs =
    let added = reflection gid diagnosis ∷ [] in
    let ours = reflections_on gid messages ++ diagnosis ∷ [] in
    (
      ground (arith, reflections_on-append gid messages added, text_eq_iff gid gid),
      ground (
        arith,
        reflections_on-append gid messages added,
        text_eq_iff gid gid,
        length-drop (length ours - limit) ours,
      ),
      ground (
        arith,
        differs,
        reflections_on-append another messages added,
        append-nil (reflections_on another messages),
      ),
    )
