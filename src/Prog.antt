-- ===== src/Prog.antt =====
-- Go code as a program that makes calls: it returns, it panics, or it makes one call and goes on
-- with the answer, whatever that is. Nothing is assumed of the answers here.
pub mod Rules
pub mod Listed
use verrazzano_operator.Prelude.{String, Bool, true, false, Option, none, some, List, [], ◌∷◌}
use verrazzano_operator.Prelude.Maps.{Map, lookup}
use verrazzano_operator.Kube.{Request, Reply, Error, Client, Kind, Obj, Selector, cached_list}

pub data Prog (A : Type 0) : Type 0 where
  ret : A → Prog A
  -- a run-time panic, such as the dereference of a nil pointer
  panic : Prog A
  call : (r : Request) → (Reply r → Prog A) → Prog A

infixl 5 ◌>>=◌ ◌>>◌
abbrev pub ◌>>=◌ : {A B : Type 0} → Prog A → (A → Prog B) → Prog B
ret a >>= f = f a
panic >>= f = panic
call r k >>= f = call r (λ x. k x >>= f)

abbrev pub ◌>>◌ : {A B : Type 0} → Prog A → Prog B → Prog B
m >> k = m >>= λ _. k

-- One call.
abbrev pub ask : (r : Request) → Prog (Reply r)
ask r = call r (λ x. ret x)

-- `if err != nil { return err }` and then the rest.
abbrev pub or_return : Option Error → Prog (Option Error) → Prog (Option Error)
or_return none rest = rest
or_return (some e) rest = ret (some e)

-- `for _, x := range xs { … if err != nil { return err } }; return nil`
unfoldable pub for_each : {A : Type 0} → (A → Prog (Option Error)) → List A → Prog (Option Error)
for_each body [] = ret none
for_each body (x ∷ xs) = body x >>= λ err. or_return err (for_each body xs)

-- A map read `m[k]` whose result is dereferenced: a missing key is a nil pointer.
unfoldable pub must_lookup : {V : Type 0} → String → Map V → Prog V
unfolding lookup
must_lookup k m = elim (lookup k m) [ none ↦ panic | some v ↦ ret v ]

-- The `else` of an `if` whose other branch does nothing.
abbrev pub unless : Bool → Prog (Option Error) → Prog (Option Error)
unless true m = ret none
unless false m = m

-- `if err != nil { return err }` after a List, and a loop over the list.
abbrev pub for_listed :
    {A : Type 0} → (A → Prog (Option Error)) → List A × Option Error → Prog (Option Error)
for_listed body (list, err) = or_return err (for_each body list)

-- `list, err := lister.List(selector)` and what `for_listed` does.
unfoldable pub for_each_listed :
    Client → (k : Kind) → String → Selector → (Obj k → Prog (Option Error)) → Prog (Option Error)
unfolding for_each
for_each_listed client k ns selector body = do
  existing ← ask (cached_list client k ns selector)
  for_listed body existing
