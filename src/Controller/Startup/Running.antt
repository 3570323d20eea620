-- ===== src/Controller/Startup/Running.antt =====
-- pkg/controller/controller.go: Run, and the goroutine of the global entities.
use verrazzano_operator.Prelude.{
  Bool, true, false, if◌then◌else◌, String, ℕ, zero, suc, ◌+◌, ◌≡◌, refl, ◌⊎◌, inl, inr, [], ◌∷◌,
  arith,
}
use verrazzano_operator.Prelude.Maps.{Map}
use verrazzano_operator.Kube.{
  Error, History, Request, event, Reply, Channel, nil_channel, stop_channel, api_server_exited,
  receive, sleep,
}
use verrazzano_operator.Prog.{Prog, panic, ret, call}
use verrazzano_operator.Prog.Rules.{panics, Runs, calls, returns, Runs-bind, Runs-mono, Runs-weaken}
use verrazzano_operator.Types.{SyntheticBinding}
use verrazzano_operator.Local.AcmeDns.{AcmeDns}
use verrazzano_operator.Packages.{own_packages}
use verrazzano_operator.Controller.{Controller}
use verrazzano_operator.Controller.Handlers.{put_connection}
use verrazzano_operator.Controller.Globals.{WritesGlobals, create_update_global_entities_lem}
use verrazzano_operator.Controller.Joining.{Joins}
use verrazzano_operator.Controller.Joining.Outcome.{JoinOutcome, process_managed_cluster_lem}
use verrazzano_operator.Controller.Startup.{create_update_global_entities_goroutine, run}

-- A receive from the nil channel is not followed by anything.
pub Runs-receive_nil :
    {A : Type 0} {G : History → Request → Type 0} {Q : History → A → Type 0} {X : Type 0}
    (ch : Channel)
    → ch ≡ nil_channel
    → (k : (x : Reply (receive ch)) → Prog A) (h : History) → G h (receive ch)
    → Runs G Q X h (call (receive ch) k)
Runs-receive_nil nil_channel e k h g = calls h _ k g (λ never. absurd never)
Runs-receive_nil stop_channel e k h g = cc
Runs-receive_nil api_server_exited e k h g = calls h _ k g (λ never. absurd never)

module _ (path : String) (c : Controller) (asset : String → String ⊎ Error)
    (unmarshal : String → Map AcmeDns ⊎ Error) (marshal : Map AcmeDns → String ⊎ Error)
    (own : c.packages ≡ own_packages asset unmarshal marshal)
    (stopless : c.stop_ch ≡ nil_channel) where
  JoinOutcome-stop_ch :
      (n : String) (h : History) (c' : Controller)
      → JoinOutcome n path c h c'
      → c'.stop_ch ≡ nil_channel
  unfolding put_connection
  JoinOutcome-stop_ch n h c' (inl (e, found, x, failed)) = rw e stopless
  JoinOutcome-stop_ch n h c' (inr (sa, m, inl (e, why))) = rw e stopless
  JoinOutcome-stop_ch n h c' (inr (sa, m, inr (conn, f, r, e))) = rw e stopless

  -- The calls of Run: those of processManagedCluster, and a receive from the nil channel.
  abbrev pub RunsForever : History → Request → Type 0
  RunsForever h r = Joins path c.stop_ch h r ⊎ (r ≡ receive nil_channel)

  -- Run, of a controller whose stop channel is nil and whose packages are those of the source,
  -- makes the calls of processManagedCluster, and then receives from the nil channel. It never
  -- returns, whatever is answered and whatever signals come: it blocks forever, or panics.
  pub run_lem : (h : History) → Runs RunsForever (λ h' result. ⊥) (Unit {0}) h (run path c)
  unfolding run
  run_lem h = Runs-bind _ _ h (
      Runs-mono _ h
        (λ h' c1 out.
          let no_stop = JoinOutcome-stop_ch "local" h' c1 out in
          Runs-receive_nil c1.stop_ch no_stop _ h' (inr (rw no_stop refl)))
        (Runs-weaken _ h (λ h' r g. inl g)
          (process_managed_cluster_lem "local" path c asset unmarshal marshal own h)))

abbrev pub is_sleep : Request → Bool
is_sleep (sleep seconds) = true
is_sleep _ = false

-- How often the program has slept.
unfoldable pub sleeps : History → ℕ
sleeps [] = 0
sleeps (event r x ∷ h) = let rest = sleeps h in if is_sleep r then rest + 1 else rest

-- Code that may not sleep does not.
Runs-awake :
    {A : Type 0} {G : History → Request → Type 0} {Q : History → A → Type 0} {X : Type 0}
    → ((h : History) (r : Request) → G h r → is_sleep r ≡ false)
    → (m : Prog A) (h : History) → Runs G Q X h m
    → Runs G (λ h' a. sleeps h' ≡ sleeps h) X h m
unfolding sleeps
Runs-awake w (ret a) h (returns _ _ q) = returns h a refl
Runs-awake w panic h (panics _ x) = panics h x
Runs-awake w (call r k) h (calls _ _ _ g e) = calls h r k g λ x.
    Runs-mono (k x) _ (λ h' a q. ground (arith, w h r g, q))
      (Runs-awake w (k x) (event r x ∷ h) (e x))

module _ (asset : String → String ⊎ Error) (unmarshal : String → Map AcmeDns ⊎ Error)
    (marshal : Map AcmeDns → String ⊎ Error) (b : SyntheticBinding) (c : Controller)
    (own : c.packages ≡ own_packages asset unmarshal marshal) where
  WritesGlobals-awake : (h : History) (r : Request) → WritesGlobals asset b h r → is_sleep r ≡ false
  WritesGlobals-awake h (sleep seconds) (inl (inl g)) = absurd g
  WritesGlobals-awake h (sleep seconds) (inl (inr (o, g))) = absurd g
  WritesGlobals-awake h (sleep seconds) (inr (inl g)) = absurd g
  WritesGlobals-awake h (sleep seconds) (inr (inr g)) = absurd g
  WritesGlobals-awake h _ g = refl

  -- The calls of createUpdateGlobalEntities, and sleeps of 60 seconds.
  abbrev pub WritesAndSleeps : History → Request → Type 0
  WritesAndSleeps h r = WritesGlobals asset b h r ⊎ (r ≡ sleep 60)

  -- Whatever is answered, errors included, the goroutine goes through each of its first rounds,
  -- with the packages of the source: it does not panic, makes only calls that
  -- createUpdateGlobalEntities may make, and sleeps once for each round, for 60 seconds.
  pub create_update_global_entities_goroutine_lem :
      (rounds : ℕ) (h : History)
      → Runs WritesAndSleeps
          (λ h' u. sleeps h' ≡ sleeps h + rounds)
          ⊥
          h
          (create_update_global_entities_goroutine rounds b c)
  unfolding create_update_global_entities_goroutine
  create_update_global_entities_goroutine_lem zero h = returns h tt (omega arith)
  create_update_global_entities_goroutine_lem (suc n) h = Runs-bind _ _ h (
      Runs-mono {Q = λ h1 err. sleeps h1 ≡ sleeps h} _ h
        (λ h1 err q. calls h1 _ _ (inr refl) λ u.
          Runs-mono {Q = λ h2 u2. sleeps h2 ≡ sleeps (event (sleep 60) u ∷ h1) + n} _ _
            (λ h2 u2 q2. unfold sleeps in omega (arith, q, q2))
            (create_update_global_entities_goroutine_lem n (event (sleep 60) u ∷ h1)))
        (Runs-weaken _ h (λ h' r g. inl g)
          (Runs-awake WritesGlobals-awake _ h
            (create_update_global_entities_lem b c asset unmarshal marshal own h))))
