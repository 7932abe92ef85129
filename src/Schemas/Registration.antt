-- ===== src/Schemas/Registration.antt =====
-- Registrations that Pydantic has let through.
use Prim.Native.String.{count, String as Text, [], ◌∷◌}
use text.Mathlib.TextLemmas.{length-cons}
use smart_auth_with_kubernat.Prelude.{
  ℕ, suc, ◌+◌, ◌≤◌, String, ◌≡◌, refl, ap, sym, ◌∙◌, Bool, false, true, not, ◌||◌, Option, none,
  some, is_some, List, [], ◌∷◌, arith,
}
use smart_auth_with_kubernat.Prelude.Rows.{find?}
use smart_auth_with_kubernat.Prelude.Texts.{lower, has_nul, lower-no_nul}
use smart_auth_with_kubernat.AuthService.{register_user}
use smart_auth_with_kubernat.AuthService.Register.{registered, register_user_lem}
use smart_auth_with_kubernat.Exec.{ok}
use smart_auth_with_kubernat.Models.{RegisterRequest, fits, user_fits}
use smart_auth_with_kubernat.Platform.{Platform, IsDocumented, World}
use smart_auth_with_kubernat.Platform.Database.{has_id, has_email}
use smart_auth_with_kubernat.Platform.Http.{Members, member?}
use smart_auth_with_kubernat.Schemas.{
  register_request, registration, sized_text, checked_email, as_text,
}

count-lower : (s : Text) → count (lower s) ≡ count s
unfolding lower
count-lower [] = refl
count-lower (c ∷ s) =
    length-cons _ (lower s) ∙ ap (λ n. suc n) (count-lower s) ∙ sym (length-cons c s)

registration-some :
    (email full_name password : Option String) (payload : RegisterRequest)
    → registration email full_name password ≡ some payload
    → (email ≡ some payload.email)
      × (full_name ≡ some payload.full_name)
      × (password ≡ some payload.password)
registration-some (some e) (some n) (some p) payload h = (cc, cc, cc)
registration-some none n p payload h = ground arith
registration-some (some e) none p payload h = ground arith
registration-some (some e) (some n) none payload h = ground arith

sized_text-bound :
    (least most : ℕ) (given : Option String) (s : String)
    → sized_text least most given ≡ some s
    → count s ≤ most
sized_text-bound least most none s h = ground arith
sized_text-bound least most (some t) s h = ground arith

checked_email-bound :
    (email_str : String → Option String)
    → ((s e : String) → email_str s ≡ some e → (count e ≤ 254) × (has_nul e ≡ false))
    → (given : Option String) (e : String) → checked_email email_str given ≡ some e
    → (count e ≤ 254) × (has_nul e ≡ false)
checked_email-bound email_str valid none e h = absurd (ground arith)
checked_email-bound email_str valid (some s) e h = valid s e h

module _ (email_str : String → Option String) (body : Members) (payload : RegisterRequest) where
  -- what is known of a body that is let through
  request-bounds :
      ((s e : String) → email_str s ≡ some e → (count e ≤ 254) × (has_nul e ≡ false))
      → register_request email_str body ≡ some payload
      → ((count payload.email ≤ 254) × (has_nul payload.email ≡ false))
        × (count payload.full_name ≤ 255)
        × (count payload.password ≤ 128)
  unfolding register_request
  request-bounds valid h =
      let (email, name, password) = registration-some _ _ _ payload h in
      (
        checked_email-bound email_str valid (as_text (member? "email" body)) payload.email email,
        sized_text-bound 2 255 (as_text (member? "full_name" body)) payload.full_name name,
        sized_text-bound 8 128 (as_text (member? "password" body)) payload.password password,
      )

none-rejects :
    (fits clash rejected : Bool)
    → fits ≡ true
    → clash ≡ false
    → rejected ≡ false
    → not fits || clash || rejected ≡ false
none-rejects fits clash rejected f c r = ground arith

find-or {ℓ} :
    {A : Type ℓ} (p q : A → Bool) (l : List A)
    → find? p l ≡ none
    → find? q l ≡ none
    → is_some (find? (λ x. p x || q x) l) ≡ false
find-or p q [] h k = refl
find-or p q (x ∷ l) h k = ground (arith, find-or p q l)

clean-fits : (n : ℕ) (s : String) → count s ≤ n → has_nul s ≡ false → fits n s ≡ true
clean-fits n s short clean = rw clean (ground arith)

module _ {P : Platform} (L : IsDocumented P) (email_str : String → Option String)
    (email_lem : (s e : String)
      → email_str s ≡ some e
      → (count e ≤ 254) × (has_nul e ≡ false)) where
  -- A registration that Pydantic lets through, of an e-mail that has no user, and of a name without
  -- the character U+0000, succeeds: where e-mails have at most 254 characters and the password's hash
  -- at most 255, neither with a U+0000, the new id is free and nothing that is pending is refused,
  -- the user is added and committed.
  pub valid-registers :
      (body : Members) (payload : RegisterRequest) (w : World P)
      → register_request email_str body ≡ some payload
      → has_nul payload.full_name ≡ false
      → count (P.hash w.draws payload.password) ≤ 255
      → has_nul (P.hash w.draws payload.password) ≡ false
      → P.select_user (lower payload.email) w.session ≡ none
      → find? (has_id (P.uuid4 (w.draws + 1))) (P.rows w.session).users ≡ none
      → P.rejects w.session ≡ false
      → let u = registered payload w in
        register_user payload w
        ≡ (ok u, record w { session = P.commit (P.add_user u w.session); draws = w.draws + 1 + 1 })
  unfolding user_fits
  valid-registers body payload w valid clean short_hash clean_hash unknown free quiet =
      let u = registered payload w in
      let (email, name, _) = request-bounds email_str body payload email_lem valid in
      let fits : user_fits u ≡ true = ground (
        arith,
        clean-fits 320 u.email (omega (arith, count-lower payload.email, email))
            (lower-no_nul payload.email email.1),
        clean-fits 255 u.full_name name clean,
        clean-fits 255 (P.hash w.draws payload.password) short_hash clean_hash,
      ) in
      let alone =
        find-or (has_id u.id) (has_email u.email) (P.rows w.session).users free
          (sym (L.select_user_lem u.email w.session) ∙ unknown) in
      let accepted : P.rejects (P.add_user u w.session) ≡ false =
        L.rejects-add_user u w.session ∙ none-rejects _ _ _ fits alone quiet in
      register_user_lem L payload w ∙ ground arith
