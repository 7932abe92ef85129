-- ===== src/OAuthService/Verified.antt =====
-- When an address counts as verified at GitHub.
use smart_auth_with_kubernat.Prelude.{
  String, ◌≡◌, refl, sym, ◌∙◌, ◌⊎◌, inl, inr, true, Option, none, some, Bool-cases, ap,
}
use smart_auth_with_kubernat.Prelude.Texts.{lower}
use smart_auth_with_kubernat.Exec.{Result, ok, err}
use smart_auth_with_kubernat.OAuthService.Profiles.{
  item, get_item, as_text, items_of, primary_of, address_of, is_verified, first_text, optional_text,
  github_identity, ◌>>=◌,
}
use smart_auth_with_kubernat.OAuthService.Providers.{OAuthIdentity}
use smart_auth_with_kubernat.Platform.Http.{Json, text, Items, nil, cons, truth}

module _ {Value Answer : Type 0} where
  -- what a reading that went on says of its first step
  first_step :
      (reading : Result Value) (rest : Value → Result Answer) {answer : Answer}
      → (reading >>= rest) ≡ ok answer
      → (v : Value) × (reading ≡ ok v) × (rest v ≡ ok answer)
  first_step (err e) rest went = absurd (cc)
  first_step (ok v) rest went = (v, refl, went)

ok_injective {ℓ} : {A : Type ℓ} {a b : A} → ok a ≡ ok b → a ≡ b
ok_injective h = cc

abbrev pub IsListed : Json → Items → Type 0
IsListed v nil = ⊥
IsListed v (cons u l) = (v ≡ u) ⊎ IsListed v l

-- a flag of an object is set
abbrev pub IsFlagged : String → Json → Type 0
IsFlagged k v = (flag : Json) × (get_item k v ≡ ok flag) × (truth flag ≡ true)

-- an entry of the addresses that is primary, verified, and of this address
pub record IsPrimary (l : Items) (email : String) : Type 0 where
  pub entry : Json
  pub address : String
  pub listed : IsListed entry l
  pub primary : IsFlagged "primary" entry
  pub verified : IsFlagged "verified" entry
  pub has_address : item "email" entry ≡ ok (text address)
  pub lowered : email ≡ lower address

primary_of_sound :
    (l : Items) (v : Json) → primary_of l ≡ ok (some v) → IsListed v l × IsFlagged "primary" v
unfolding primary_of
primary_of_sound nil v h = absurd (cc)
primary_of_sound (cons u l) v h =
    let (flag, found, h') = first_step (get_item "primary" u) _ h in
    elim (Bool-cases (truth flag)) [
      | inl yes_flag ↦
          let same : u ≡ v = (let h₁ = rw yes_flag at h' in cc) in
          (inl (sym same), rw (sym same) (flag, found, yes_flag))
      | inr no_flag ↦
          let (listed, is_primary) = primary_of_sound l v (rw no_flag at h') in
          (inr listed, is_primary)
    ]

as_text-eq-ok : (v : Json) (s : String) → as_text v ≡ ok s → v ≡ text s
as_text-eq-ok (text t) s h = cc
as_text-eq-ok _ s h = absurd (cc)

address_of-primary :
    (str : Json → String) (profile : Json) (l : Items) (v : Json) (email : String)
    → IsListed v l
    → address_of str profile l (some v) ≡ ok email
    → (address : String) × (item "email" v ≡ ok (text address)) × (email ≡ lower address)
address_of-primary str profile nil v email listed h = absurd listed
address_of-primary str profile (cons u l) v email listed h =
    let (address, found, h₁) = first_step (item "email" v) _ h in
    let (t, is_text, h₂) = first_step (as_text address) _ h₁ in
    (t, found ∙ ap ok (as_text-eq-ok address t is_text), cc)

is_verified-eq-true :
    (primary : Option Json)
    → is_verified primary ≡ ok true
    → (v : Json) × (primary ≡ some v) × IsFlagged "verified" v
is_verified-eq-true none h = absurd (cc)
is_verified-eq-true (some v) h =
    let (flag, found, h') = first_step (get_item "verified" v) _ h in (v, refl, (flag, found, cc))

-- what the rest of the reading keeps of the address
parts_of :
    (str : Json → String) (profile emails : Json) (i : OAuthIdentity)
    → github_identity str profile emails ≡ ok i
    → (l : Items) × (primary : Option Json) × (items_of emails ≡ ok l)
      × (primary_of l ≡ ok primary)
      × (address_of str profile l primary ≡ ok i.email)
      × (is_verified primary ≡ ok i.email_verified)
unfolding github_identity
parts_of str profile emails i h =
    let (l, listed, h₁) = first_step (items_of emails) _ h in
    let (primary, first, h₂) = first_step (primary_of l) _ h₁ in
    let (email, addressed, h₃) = first_step (address_of str profile l primary) _ h₂ in
    let (verified, checked, h₄) = first_step (is_verified primary) _ h₃ in
    let (_, _, h₅) = first_step (item "id" profile) _ h₄ in
    let (name, _, h₆) = first_step (get_item "name" profile) _ h₅ in
    let (login, _, h₇) = first_step (get_item "login" profile) _ h₆ in
    let (_, _, h₈) = first_step (first_text name login _) _ h₇ in
    let (picture, _, h₉) = first_step (get_item "avatar_url" profile) _ h₈ in
    let (_, _, done) = first_step (optional_text picture) _ h₉ in
    let same = ok_injective done in
    (
      l,
      primary,
      listed,
      first,
      addressed ∙ ap (λ (j : OAuthIdentity). ok j.email) same,
      checked ∙ ap (λ (j : OAuthIdentity). ok j.email_verified) same,
    )

-- A GitHub identity is verified only where the addresses that GitHub lists have an entry that is
-- primary and verified, and the identity's e-mail is that entry's, lower-cased.
pub github_identity-verified :
    (str : Json → String) (profile emails : Json) (i : OAuthIdentity)
    → github_identity str profile emails ≡ ok i
    → i.email_verified ≡ true
    → (l : Items) × (items_of emails ≡ ok l) × IsPrimary l i.email
github_identity-verified str profile emails i h is_true =
    let (l, primary, listed, first, addressed, checked) = parts_of str profile emails i h in
    let (v, is_entry, verified) = is_verified-eq-true primary (checked ∙ ap ok is_true) in
    let (there, is_primary) = primary_of_sound l v (first ∙ ap ok is_entry) in
    let (address, has_address, lowered) =
      address_of-primary str profile l v i.email there
        (ap (address_of str profile l) (sym is_entry) ∙ addressed) in
    (
      l,
      listed,
      record {
        entry = v;
        address = address;
        listed = there;
        primary = is_primary;
        verified = verified;
        has_address = has_address;
        lowered = lowered;
      },
    )
