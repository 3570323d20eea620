-- ===== src/Prog/Rules.antt =====
-- Specifications of programs, and one rule for each way to build a program.
use verrazzano_operator.Prelude.{◌≡◌, refl, Option, none, some, List, [], ◌∷◌, String, inl, inr}
use verrazzano_operator.Prelude.Slices.{All, In}
use verrazzano_operator.Prelude.Maps.{Map, lookup}
use verrazzano_operator.Kube.{Request, Reply, Error, Event, event, History}
use verrazzano_operator.Prog.{Prog, ret, panic, call, ◌>>=◌, or_return, for_each, must_lookup}

-- From the history `h` on, whatever the calls answer: each call that the program makes is allowed
-- by `G`, which may look at the history before it; at a return `Q` holds of the history and the
-- result; and it panics only if `X` holds.
pub data Runs {A : Type 0} (G : History → Request → Type 0) (Q : History → A → Type 0) (X : Type 0)
    : History → Prog A → Type 0 where
  returns : (h : History) (a : A) → Q h a → Runs G Q X h (ret a)
  panics : (h : History) → X → Runs G Q X h panic
  calls :
      (h : History) (r : Request) (k : Reply r → Prog A)
      → G h r
      → ((x : Reply r) → Runs G Q X (event r x ∷ h) (k x))
      → Runs G Q X h (call r k)

-- Total correctness: the program does not panic.
abbrev pub Ensures :
    {A : Type 0} → (History → Request → Type 0) → (History → A → Type 0) → Prog A → Type 0
Ensures G Q p = (h : History) → Runs G Q ⊥ h p

-- Every call is allowed; the program may panic.
abbrev pub Only : {A : Type 0} → (History → Request → Type 0) → Prog A → Type 0
Only G p = (h : History) → Runs G (λ _ _. Unit {0}) (Unit {0}) h p

-- A fact about the history that stays true as it grows.
abbrev pub Lasts : (History → Type 0) → Type 0
Lasts J = (e : Event) (h : History) → J h → J (e ∷ h)

-- The postcondition of code that returns an error: on success `F` holds.
abbrev pub OnSuccess : (History → Type 0) → History → Option Error → Type 0
OnSuccess F h err = err ≡ none → F h

module _ {A B : Type 0} {G : History → Request → Type 0} {X : Type 0} where
  pub Runs-bind :
      {Q : History → B → Type 0} (m : Prog A) (f : A → Prog B) (h : History)
      → Runs G (λ h' a. Runs G Q X h' (f a)) X h m
      → Runs G Q X h (m >>= f)
  Runs-bind (ret a) f h (returns _ _ e) = e
  Runs-bind panic f h (panics _ x) = panics h x
  Runs-bind (call r k) f h (calls _ _ _ g e) =
      calls h r _ g (λ x. Runs-bind (k x) f (event r x ∷ h) (e x))

module _ {A : Type 0} {G : History → Request → Type 0} {X : Type 0} where
  pub Runs-mono :
      {Q R : History → A → Type 0} (m : Prog A) (h : History)
      → ((h' : History) (a : A) → Q h' a → R h' a)
      → Runs G Q X h m
      → Runs G R X h m
  Runs-mono (ret a) h w (returns _ _ e) = returns h a (w h a e)
  Runs-mono panic h w (panics _ x) = panics h x
  Runs-mono (call r k) h w (calls _ _ _ g e) =
      calls h r k g (λ x. Runs-mono (k x) (event r x ∷ h) w (e x))

  -- A lasting fact that holds at the start holds at the end.
  pub Runs-frame :
      {Q : History → A → Type 0} (J : History → Type 0)
      → Lasts J
      → (m : Prog A) (h : History) → J h
      → Runs G Q X h m
      → Runs G (λ h' a. Q h' a × J h') X h m
  Runs-frame J keep (ret a) h j (returns _ _ e) = returns h a (e, j)
  Runs-frame J keep panic h j (panics _ x) = panics h x
  Runs-frame J keep (call r k) h j (calls _ _ _ g e) =
      calls h r k g (λ x. Runs-frame J keep (k x) (event r x ∷ h) (keep (event r x) h j) (e x))

-- A guard may be widened.
pub Runs-weaken :
    {A : Type 0} {G G' : History → Request → Type 0} {Q : History → A → Type 0} {X : Type 0}
    (m : Prog A) (h : History)
    → ((h' : History) (r : Request) → G h' r → G' h' r)
    → Runs G Q X h m
    → Runs G' Q X h m
Runs-weaken (ret a) h w (returns _ _ e) = returns h a e
Runs-weaken panic h w (panics _ x) = panics h x
Runs-weaken (call r k) h w (calls _ _ _ g e) =
    calls h r k (w h r g) (λ x. Runs-weaken (k x) (event r x ∷ h) w (e x))

-- A lasting fact that holds at the start holds at each call.
pub Runs-guard :
    {A : Type 0} {G : History → Request → Type 0} {Q : History → A → Type 0} {X : Type 0}
    (J : History → Type 0)
    → Lasts J
    → (m : Prog A) (h : History) → J h
    → Runs G Q X h m
    → Runs (λ h' r. J h' × G h' r) Q X h m
Runs-guard J keep (ret a) h j (returns _ _ e) = returns h a e
Runs-guard J keep panic h j (panics _ x) = panics h x
Runs-guard J keep (call r k) h j (calls _ _ _ g e) =
    calls h r k (j, g) (λ x. Runs-guard J keep (k x) (event r x ∷ h) (keep (event r x) h j) (e x))

-- What excuses a panic may be widened.
pub Runs-excuse :
    {A : Type 0} {G : History → Request → Type 0} {Q : History → A → Type 0} {X X' : Type 0}
    (m : Prog A) (h : History)
    → (X → X')
    → Runs G Q X h m
    → Runs G Q X' h m
Runs-excuse (ret a) h w (returns _ _ e) = returns h a e
Runs-excuse panic h w (panics _ x) = panics h (w x)
Runs-excuse (call r k) h w (calls _ _ _ g e) =
    calls h r k g (λ x. Runs-excuse (k x) (event r x ∷ h) w (e x))

module _ {G : History → Request → Type 0} {X : Type 0} {F : History → Type 0} where
  -- After an error nothing has to be shown of the history.
  pub Runs-or_return :
      (err : Option Error) (rest : Prog (Option Error)) (h : History)
      → (err ≡ none → Runs G (OnSuccess F) X h rest)
      → Runs G (OnSuccess F) X h (or_return err rest)
  Runs-or_return none rest h e = e refl
  Runs-or_return (some x) rest h e = returns h (some x) (λ p. cc)

module _ {G : History → Request → Type 0} {X : Type 0} {F F' : History → Type 0} where
  -- `if err != nil { return err }` after a call, and then the rest.
  pub Runs-next :
      (m rest : Prog (Option Error)) (h : History)
      → Runs G (OnSuccess F) X h m
      → ((h' : History) → F h' → Runs G (OnSuccess F') X h' rest)
      → Runs G (OnSuccess F') X h (m >>= λ err. or_return err rest)
  Runs-next m rest h first then =
      Runs-bind m _ h
        (Runs-mono m h (λ h' err d. Runs-or_return err rest h' (λ p. then h' (d p))) first)

  -- A lasting fact, on success.
  pub Runs-keep :
      Lasts F'
      → (m : Prog (Option Error)) (h : History) → F' h
      → Runs G (OnSuccess F) X h m
      → Runs G (OnSuccess (λ h'. F h' × F' h')) X h m
  Runs-keep keep m h j e = Runs-mono m h (λ h' err d p. (d.0 p, d.1)) (Runs-frame F' keep m h j e)

-- A pass over a slice. `J` is what the passes rely on, and `F x` what the pass for `x` establishes.
module _ {A : Type 0} {G : History → Request → Type 0} {X : Type 0} (J : History → Type 0)
    (F : A → History → Type 0) (lasts : Lasts J) (kept : (x : A) → Lasts (F x))
    (body : A → Prog (Option Error)) where
  pub Runs-for_each :
      (xs : List A)
      → ((x : A) → In x xs → (h : History) → J h → Runs G (OnSuccess (F x)) X h (body x))
      → (h : History) → J h
      → Runs G (OnSuccess (λ h'. All (λ x. F x h') xs)) X h (for_each body xs)
  unfolding for_each
  Runs-for_each [] each h j = returns h none (λ _. tt)
  Runs-for_each (x ∷ xs) each h j = Runs-bind (body x) _ h (
      Runs-mono (body x) h
        (λ h' err q. Runs-or_return err (for_each body xs) h' (λ p.
          Runs-mono (for_each body xs) h' (λ h'' err' r p'. (r.1, r.0 p'))
            (Runs-frame (F x) (kept x) (for_each body xs) h' (q.0 p)
              (Runs-for_each xs (λ y m. each y (inr m)) h' q.1))))
        (Runs-frame J lasts (body x) h j (each x (inl refl) h j)))

module _ {V : Type 0} {G : History → Request → Type 0} {Q : History → V → Type 0} {X : Type 0} where
  -- A missing key is a panic.
  pub Runs-must_lookup :
      (k : String) (m : Map V) (h : History)
      → (lookup k m ≡ none → X)
      → ((v : V) → lookup k m ≡ some v → Q h v)
      → Runs G Q X h (must_lookup k m)
  unfolding must_lookup
  Runs-must_lookup k m h absent present = split (lookup k m) absent present
    where
      split :
          (o : Option V)
          → (o ≡ none → X)
          → ((v : V) → o ≡ some v → Q h v)
          → Runs G Q X h (elim o [ none ↦ panic | some v ↦ ret v ])
      split none a p = panics h (a refl)
      split (some v) a p = returns h v (p v refl)

-- Of any program: what holds of every result holds at its return.
pub Runs-any :
    {A : Type 0} {Q : History → A → Type 0} (m : Prog A) (h : History)
    → ((h' : History) (a : A) → Q h' a)
    → Runs (λ _ _. Unit {0}) Q (Unit {0}) h m
Runs-any (ret a) h q = returns h a (q h a)
Runs-any panic h q = panics h tt
Runs-any (call r k) h q = calls h r k tt (λ x. Runs-any (k x) (event r x ∷ h) q)
