-- ===== src/Samples/Unused.antt =====
-- The functions of controller.go that nothing calls, at sample inputs.
use verrazzano_operator.Prelude.{[], ◌∷◌, ◌≡◌, refl, none, some}
use verrazzano_operator.Controller.Unused.{remove, remove_loop}

removes_one : remove ("a" ∷ "x" ∷ "b" ∷ []) "x" ≡ some ("a" ∷ "b" ∷ [])
unfolding remove remove_loop
removes_one = refl

-- The second of two entries that stand together is left.
leaves_second : remove ("x" ∷ "x" ∷ "y" ∷ []) "x" ≡ some ("x" ∷ "y" ∷ [])
unfolding remove remove_loop
leaves_second = refl

-- Where both stand at the end, the second is sought behind the end of the slice.
panics_at_end : remove ("y" ∷ "x" ∷ "x" ∷ []) "x" ≡ none
unfolding remove remove_loop
panics_at_end = refl
