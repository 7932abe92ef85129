-- ===== src/Tests/Bodies.antt =====
-- A registration as it is sent.
use Prim.Native.String.{count}
use smart_auth_with_kubernat.Prelude.{
  ◌≤◌, String, ◌≡◌, refl, false, not, ◌&&◌, Option, none, some, arith, leb, if◌then◌else◌,
}
use smart_auth_with_kubernat.Prelude.Texts.{lower, has_nul}
use smart_auth_with_kubernat.AuthService.{register_user}
use smart_auth_with_kubernat.Exec.{ok, err, exception, commit, draw, ◌>>=◌}
use smart_auth_with_kubernat.Models.{user_fits}
use smart_auth_with_kubernat.Platform.Http.{Members, end, member, text}
use smart_auth_with_kubernat.Schemas.{register_request}
use smart_auth_with_kubernat.Schemas.Nul.{body_of, nul_name-refused}
use smart_auth_with_kubernat.Schemas.Registration.{valid-registers}
use smart_auth_with_kubernat.Security.{hash_password}
use smart_auth_with_kubernat.Repositories.{add_user}
use smart_auth_with_kubernat.Tests.Auth.{ann, ann_row, with_ann}
use smart_auth_with_kubernat.Tests.Memory.{memory, memory-IsDocumented, start}

abbrev email_str : String → Option String
email_str s = if leb (count s) 254 && not (has_nul s) then some s else none

email_str_lem : (s e : String) → email_str s ≡ some e → (count e ≤ 254) × (has_nul e ≡ false)
email_str_lem s e h = ground arith

abbrev body : Members
body =
    member "email" (text "Ann@Example.com")
      (member "full_name" (text "Ann Lee") (member "password" (text "StrongPass123") end))

accepted : register_request email_str body ≡ some ann
unfolding register_request
accepted = refl

-- a later member of the same name is the one that counts
too_short :
    register_request email_str (
      member "email" (text "Ann@Example.com") (
        member "full_name"
          (text "Ann Lee")
          (member "password" (text "StrongPass123") (member "password" (text "short") end))))
    ≡ none
unfolding register_request
too_short = refl

valid-registers_example : register_user {P = memory} ann start ≡ (ok ann_row, with_ann)
unfolding user_fits lower register_user ◌>>=◌ hash_password draw add_user commit
valid-registers_example =
    valid-registers memory-IsDocumented email_str email_str_lem body ann start accepted refl
      (omega arith) refl refl refl refl

-- the name "Ann", a U+0000 and "Lee"
abbrev nul_name : String
nul_name = "Ann\0Lee"

nul_name-refused_example :
    (register_request email_str (body_of "Ann@Example.com" nul_name "StrongPass123")
      ≡ some (record ann { full_name = nul_name }))
    × ((register_user {P = memory} (record ann { full_name = nul_name }) start).0
        ≡ err (exception "DBAPIError"))
    × ((register_user {P = memory} (record ann { full_name = nul_name }) start).1.session.current
        ≡ start.session.current)
unfolding lower
nul_name-refused_example =
    nul_name-refused memory-IsDocumented email_str "Ann@Example.com" nul_name "StrongPass123"
      "Ann@Example.com" start refl (omega arith) (omega arith) (omega arith) (omega arith) refl refl
      refl
