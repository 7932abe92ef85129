-- ===== src/Schemas/Nul.antt =====
-- A registration whose name has the character U+0000, which Pydantic lets through and PostgreSQL refuses.
use Prim.Native.String.{count}
use smart_auth_with_kubernat.Prelude.{
  ℕ, ◌≤◌, String, ◌≡◌, refl, ◌∙◌, Bool, true, false, not, ◌||◌, Option, some, none, arith,
}
use smart_auth_with_kubernat.Prelude.Texts.{lower, has_nul}
use smart_auth_with_kubernat.AuthService.{register_user}
use smart_auth_with_kubernat.AuthService.Register.{registered, register_user_lem}
use smart_auth_with_kubernat.Exec.{err, exception}
use smart_auth_with_kubernat.Models.{RegisterRequest, user_fits}
use smart_auth_with_kubernat.Platform.{Platform, IsDocumented, World}
use smart_auth_with_kubernat.Platform.Http.{Members, end, member, text}
use smart_auth_with_kubernat.Schemas.{register_request, sized_text}

-- the body of a registration
abbrev pub body_of : String → String → String → Members
body_of email full_name password =
    member "email" (text email)
      (member "full_name" (text full_name) (member "password" (text password) end))

sized_text-within :
    (least most : ℕ) (s : String)
    → least ≤ count s
    → count s ≤ most
    → sized_text least most (some s) ≡ some s
sized_text-within least most s h k = ground arith

unfit-rejects : (fits clash rejected : Bool) → fits ≡ false → not fits || clash || rejected ≡ true
unfit-rejects fits clash rejected h = ground arith

module _ {P : Platform} (L : IsDocumented P) (email_str : String → Option String) where
  -- A name of the right length with the character U+0000 is let through with a valid e-mail and a
  -- password of the right length. Where the e-mail has no user, the registration then ends with an
  -- exception of the database that is no HTTP error, and leaves the tables as they were committed.
  pub nul_name-refused :
      (email full_name password e : String) (w : World P)
      → email_str email ≡ some e
      → 2 ≤ count full_name
      → count full_name ≤ 255
      → 8 ≤ count password
      → count password ≤ 128
      → has_nul full_name ≡ true
      → P.select_user (lower e) w.session ≡ none
      → P.saved w.session ≡ P.rows w.session
      → let payload : RegisterRequest = record {
        email = e;
        full_name = full_name;
        password = password;
      } in
        (register_request email_str (body_of email full_name password) ≡ some payload)
        × ((register_user payload w).0 ≡ err (exception "DBAPIError"))
        × (P.rows (register_user payload w).1.session ≡ P.rows w.session)
  unfolding register_request user_fits
  nul_name-refused email full_name password e w valid long short safe bounded nul unknown
        committed =
      let payload : RegisterRequest = record {
        email = e;
        full_name = full_name;
        password = password;
      } in
      let u = registered payload w in
      let pending = P.add_user u w.session in
      let unfit : user_fits u ≡ false = ground arith in
      let refused : P.rejects pending ≡ true =
        L.rejects-add_user u w.session ∙ unfit-rejects _ _ _ unfit in
      (
        rw
            (
              valid,
              sized_text-within 2 255 full_name long short,
              sized_text-within 8 128 password safe bounded,
            )
            refl,
        rw (register_user_lem L payload w, unknown, refused) refl,
        rw (register_user_lem L payload w, unknown, refused)
            (L.rows-rollback pending ∙ L.saved-add_user u w.session ∙ committed),
      )
