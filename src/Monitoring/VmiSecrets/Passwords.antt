-- ===== src/Monitoring/VmiSecrets/Passwords.antt =====
-- The passwords that genPassword makes, and the secret that NewVmiSecret makes.
use Prim.Native.Char.{Char, code}
use Prim.Native.String.{[], ◌∷◌}
use verrazzano_operator.Prelude.{
  String, ℕ, zero, suc, Bool, true, ◌≡◌, refl, ◌<◌, ◌&&◌, ◌||◌, leb, none, some, arith, ap,
}
use verrazzano_operator.Prelude.Maps.{lookup}
use verrazzano_operator.Constants.{verrazzano_namespace, vmi_secret_name, vmi_username}
use verrazzano_operator.Kube.{History, Request, random, Secret}
use verrazzano_operator.Prog.{ret}
use verrazzano_operator.Prog.Rules.{calls, returns, Ensures, Runs-bind, Runs-mono}
use verrazzano_operator.Types.{SyntheticBinding}
use verrazzano_operator.Util.{get_local_binding_labels}
use verrazzano_operator.Monitoring.Components.{named_meta}
use verrazzano_operator.Monitoring.VmiSecrets.{
  password_chars, rune_count, rune_at, gen_password, secret_with, new_vmi_secret, password_of,
  is_complete,
}

abbrev pub is_alphanumeric : Char → Bool
is_alphanumeric c =
    leb b'0' (code c) && leb (code c) b'9'
    || leb b'a' (code c) && leb (code c) b'z'
    || leb b'A' (code c) && leb (code c) b'Z'

abbrev pub all_runes : (Char → Bool) → String → Bool
all_runes p [] = true
all_runes p (c ∷ rest) = p c && all_runes p rest

-- The password has the given length, of ASCII letters and digits.
abbrev pub IsPassword : ℕ → String → Type 0
IsPassword n pw = (rune_count pw ≡ n) × (all_runes is_alphanumeric pw ≡ true)

-- An index below the length finds a rune.
rune_at-below :
    (p : Char → Bool) (i : ℕ) (s : String)
    → i < rune_count s
    → all_runes p s ≡ true
    → (c : Char) × (rune_at i s ≡ some c) × (p c ≡ true)
rune_at-below p i [] lt a = absurd (omega arith)
rune_at-below p zero (c ∷ s) lt a = (c, refl, ground arith)
rune_at-below p (suc i) (c ∷ s) lt a = rune_at-below p i s (omega arith) (ground arith)

password_chars_all : all_runes is_alphanumeric password_chars ≡ true
password_chars_all = refl

-- Each call draws an index into the runes.
abbrev pub Draws : History → Request → Type 0
Draws h r = r ≡ random (rune_count password_chars)

gen_password_lem : (n : ℕ) → Ensures Draws (λ h pw. IsPassword n pw) (gen_password n)
unfolding gen_password
gen_password_lem zero h = returns h "" (refl, refl)
gen_password_lem (suc n) h = calls h _ _ refl λ (i, below).
    let (c, at, ok) = rune_at-below is_alphanumeric i password_chars below password_chars_all in
    rw at (
      Runs-bind (gen_password n) _ _ (
        Runs-mono (gen_password n) _
          (λ h' pw (count, all). returns h' (c ∷ pw) (ap suc count, ground arith))
          (gen_password_lem n _)))

-- A secret as NewVmiSecret makes it for the binding.
abbrev pub IsFresh : SyntheticBinding → Secret → Type 0
IsFresh b o =
    (pw : String) × IsPassword 16 pw
    × (o.metadata ≡ named_meta vmi_secret_name verrazzano_namespace (get_local_binding_labels b))
    × (lookup "username" o.content ≡ some vmi_username)
    × (password_of (some o, none) ≡ (pw, none))
    × (is_complete o ≡ true)

-- NewVmiSecret only draws random numbers, each below the number of password characters, and does
-- not panic. The secret is named and labelled for the binding, has the user name, and is complete:
-- the password, which GetVmiPassword finds in it, is 16 ASCII letters and digits.
pub new_vmi_secret_lem :
    (b : SyntheticBinding) → Ensures Draws (λ h o. IsFresh b o) (new_vmi_secret b)
unfolding new_vmi_secret lookup is_complete
new_vmi_secret_lem b h =
    Runs-bind (gen_password 16) (λ pw. ret (secret_with b pw)) h
      (Runs-mono (gen_password 16) h
        (λ h' pw p. returns h' (secret_with b pw) (pw, p, refl, refl, refl, refl))
        (gen_password_lem 16 h))
