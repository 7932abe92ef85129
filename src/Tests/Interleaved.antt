-- ===== src/Tests/Interleaved.antt =====
-- Requests that interleave, on the platform in memory.
use smart_auth_with_kubernat.Prelude.{
  ℕ, zero, suc, Bool, ◌&&◌, ◌≡◌, refl, true, false, Option, some, none, List, [], ◌∷◌, map,
}
use smart_auth_with_kubernat.Prelude.Texts.{lower}
use smart_auth_with_kubernat.AuthService.{
  register_user, insert_user, issue_token_pair, rotate_refresh_token, check_refresh_token,
  check_refresh_record,
}
use smart_auth_with_kubernat.AuthService.Rotation.{revoked_in}
use smart_auth_with_kubernat.Constraints.{IsConsistent, Changes, here}
use smart_auth_with_kubernat.Exec.{
  Result, ok, err, exception, now, commit, draw, redis_command, ◌>>=◌,
}
use smart_auth_with_kubernat.Interleaving.{Task, finished, stage, task_of, run}
use smart_auth_with_kubernat.Interleaving.Invariant.{interleaved-IsConsistent}
use smart_auth_with_kubernat.Interleaving.Refreshes.{second_rotation}
use smart_auth_with_kubernat.Interleaving.Registrations.{second_registration}
use smart_auth_with_kubernat.Models.{RegisterRequest, TokenResponse, user_fits, token_fits}
use smart_auth_with_kubernat.Platform.{World}
use smart_auth_with_kubernat.RateLimiter.{Request, rate_limit, get_client_ip}
use smart_auth_with_kubernat.Repositories.{add_user, add_token}
use smart_auth_with_kubernat.Routes.{Call, post_register, post_refresh, Response, auth_limit}
use smart_auth_with_kubernat.Security.{
  hash_password, create_access_token, create_refresh_token, decode_token,
}
use smart_auth_with_kubernat.Tests.Auth.{ann, ann_row, with_ann, issued, body}
use smart_auth_with_kubernat.Tests.Memory.{memory, memory-IsDocumented, sample_settings, start}
use smart_auth_with_kubernat.Tests.Serving.{ann_record, no_rows-IsConsistent}
use smart_auth_with_kubernat.Tests.Tokens.{
  encode, decode, parse, put_number, put_unary, take_unary, take_text, put_text, take_number,
}

-- the answer of the n-th request, once it is there
abbrev answer_of : ℕ → List (Task memory) → Option (Result Response)
answer_of n [] = none
answer_of zero (finished r ∷ ts) = some r
answer_of zero (stage f k ∷ ts) = none
answer_of (suc n) (t ∷ ts) = answer_of n ts

abbrev host : Request
host = record { client_host = some "203.0.113.7"; forwarded_for = none }

abbrev other_ann : RegisterRequest
other_ann = record ann { email = "ANN@example.com"; full_name = "Another Ann" }

abbrev pair : List (Request × Call)
pair = (host, post_register ann) ∷ (host, post_register other_ann) ∷ []

-- the look-ups of both come before the writes of either
abbrev schedule : List ℕ
schedule = 0 ∷ 1 ∷ 0 ∷ 1 ∷ 0 ∷ 1 ∷ 0 ∷ 1 ∷ 0 ∷ 1 ∷ 0 ∷ 1 ∷ 0 ∷ 1 ∷ []

interleaved-IsConsistent_example :
    let s = (run {P = memory} schedule (map (task_of sample_settings) pair) start).1.session in
    IsConsistent s.current × Changes start.session.current s.current × (s.base ≡ s.current)
interleaved-IsConsistent_example =
    interleaved-IsConsistent memory-IsDocumented sample_settings pair schedule start
      no_rows-IsConsistent refl refl

second_registration_example :
    ((insert_user {P = memory} other_ann with_ann).0 ≡ err (exception "DBAPIError"))
    × ((insert_user {P = memory} other_ann with_ann).1.session.current ≡ with_ann.session.current)
unfolding register_user insert_user hash_password add_user draw commit lower user_fits ◌>>=◌
second_registration_example =
    second_registration memory-IsDocumented ann other_ann start with_ann with_ann ann_row refl refl
      here refl

abbrev rotated_once : Result TokenResponse × World memory
rotated_once = rotate_refresh_token sample_settings (ann_record, ann_row) issued.1

second_rotation_example :
    (revoked_in ann_record.jti rotated_once.1.session.current ≡ true)
    × ((second : TokenResponse) × (v : World memory) × (rotate_refresh_token sample_settings
            (ann_record, ann_row)
            rotated_once.1
          ≡ (ok second, v)))
unfolding register_user hash_password add_user draw commit lower user_fits token_fits ◌>>=◌
    issue_token_pair create_access_token create_refresh_token add_token now rotate_refresh_token
    put_number put_unary
second_rotation_example =
    second_rotation memory-IsDocumented sample_settings ann_record ann_row ann_record.jti issued.1
      rotated_once.1 (body rotated_once.0) refl refl refl refl refl

abbrev answers : List (Task memory)
answers = (run {P = memory} schedule (map (task_of sample_settings) pair) start).0

second_gets_500 : answer_of 1 answers ≡ some (err (exception "DBAPIError"))
unfolding run task_of register_user insert_user hash_password add_user draw commit lower user_fits
    ◌>>=◌ auth_limit rate_limit get_client_ip redis_command
second_gets_500 = refl

abbrev both_refreshes : List (Task memory)
both_refreshes =
    let token = (body issued.0).refresh_token in
    (run {P = memory} schedule
      (map (task_of sample_settings) ((host, post_refresh token) ∷ (host, post_refresh token) ∷ []))
      issued.1).0

abbrev is_answered : List (Task memory) → ℕ → Bool
is_answered tasks n = elim (answer_of n tasks) [ some (ok r) ↦ true | _ ↦ false ]

both_answered : is_answered both_refreshes 0 && is_answered both_refreshes 1 ≡ true
unfolding run task_of register_user insert_user hash_password add_user draw commit lower user_fits
    token_fits ◌>>=◌ auth_limit rate_limit get_client_ip redis_command issue_token_pair
    create_access_token create_refresh_token add_token now check_refresh_token check_refresh_record
    decode_token put_number take_number put_unary take_unary put_text take_text encode decode parse
both_answered = refl
