-- ===== src/OAuthService/Handshake.antt =====
-- The `state` of a flow, from its start to its return: it is good once, for its own flow, while its
-- key lives.
use smart_auth_with_kubernat.Prelude.{
  ◌+◌, refl, ◌*◌, ◌<◌, String, ◌≡◌, ◌≢◌, Option, none, some, arith, ==_refl, ==_iff, string_eq, ◌⊎◌,
  inl, inr, not, is_set, truthy, false, ◌==◌, ◌&&◌,
}
use smart_auth_with_kubernat.Config.{Settings}
use smart_auth_with_kubernat.Exec.{Failure, Result, ok, err, draw, redis_command, ◌>>=◌}
use smart_auth_with_kubernat.OAuthService.Providers.{OAuthStartResponse, provider_config, state_key}
use smart_auth_with_kubernat.OAuthService.States.{
  build_authorization_url, consume_oauth_state, invalid_state, state_payload,
}
use smart_auth_with_kubernat.Platform.{Platform, IsDocumented, World}
use smart_auth_with_kubernat.Platform.Libraries.{reply, refused}
use smart_auth_with_kubernat.Platform.Redis.{micro}

pub Result-cases :
    {A : Type 0} (r : Result A) → ((e : Failure) × (r ≡ err e)) ⊎ ((a : A) × (r ≡ ok a))
Result-cases (ok a) = inr (a, refl)
Result-cases (err e) = inl (e, refl)

module _ {P : Platform} where
  store-consume :
      (provider state flow : String) (w : World P)
      → P.answer w.readings ≢ refused
      → (consume_oauth_state {P = P} provider state flow w).1.store
        ≡ P.delete (state_key provider state) w.store
  unfolding consume_oauth_state redis_command ◌>>=◌
  store-consume provider state flow w taken = ground arith

  consume-missing :
      (provider state flow : String) (w : World P)
      → P.answer w.readings ≡ reply
      → P.get (P.clock w.readings) (state_key provider state) w.store ≡ none
      → (consume_oauth_state {P = P} provider state flow w).0 ≡ err invalid_state
  unfolding consume_oauth_state redis_command ◌>>=◌
  consume-missing provider state flow w up gone = rw (up, gone) refl

  -- what a return makes of the text that it takes out
  consume-found :
      (provider state flow raw : String) (user_id : Option String) (w : World P)
      → P.answer w.readings ≡ reply
      → P.get (P.clock w.readings) (state_key provider state) w.store ≡ some raw
      → truthy (some raw) ≡ some raw
      → P.loads raw ≡ some (state_payload flow user_id)
      → (flow == "link" && not (is_set user_id)) ≡ false
      → (consume_oauth_state {P = P} provider state flow w).0
        ≡ ok (record { flow = flow; user_id = user_id })
  unfolding consume_oauth_state redis_command ◌>>=◌
  consume-found provider state flow raw user_id w up found full read target =
      ground (arith, ==_refl flow)

module _ {P : Platform} (L : IsDocumented P) where
  -- A state whose GET and DEL were carried out is refused ever after, whatever the first return
  -- came to, while nobody writes its key again.
  pub consume_once :
      (provider state flow later_flow : String) (w v : World P)
      → P.answer w.readings ≢ refused
      → P.answer v.readings ≡ reply
      → let w' = (consume_oauth_state {P = P} provider state flow w).1 in
        P.entries v.store (state_key provider state) ≡ P.entries w'.store (state_key provider state)
        → (consume_oauth_state {P = P} provider state later_flow v).0 ≡ err invalid_state
  consume_once provider state flow later_flow w v taken up same =
      let key = state_key provider state in
      consume-missing provider state later_flow v up (
        ground (
          arith,
          same,
          store-consume provider state flow w taken,
          ==_refl key,
          L.entries-delete key w.store key,
          L.get_lem (P.clock v.readings) key v.store,
        ))

module _ {P : Platform} (L : IsDocumented P) (settings : Settings) where
  build-eq-ok :
      (provider flow : String) (user_id : Option String) (w w' : World P) (r : OAuthStartResponse)
      → build_authorization_url settings provider flow user_id w ≡ (ok r, w')
      → let key = state_key provider r.state in
        let raw = P.dumps (state_payload flow user_id) in
        ((flow == "link" && not (is_set user_id)) ≡ false)
        × (w'.store ≡ P.setex (P.clock w.readings) key 600 raw w.store)
  unfolding build_authorization_url redis_command draw ◌>>=◌
  build-eq-ok provider flow user_id w w' r h =
      elim (Result-cases (provider_config settings provider)) [
        | inl (e, failed) ↦ absurd (let h' = rw failed at h in cc)
        | inr (config, found) ↦ (let h' = rw found at h in ground arith)
      ]

  -- A state that was written for a flow is accepted for that flow within ten minutes, and names the
  -- user that the flow was started for.
  pub build-consume :
      (provider flow : String) (user_id : Option String) (w w' v : World P) (r : OAuthStartResponse)
      → build_authorization_url settings provider flow user_id w ≡ (ok r, w')
      → let key = state_key provider r.state in
        P.entries v.store key ≡ P.entries w'.store key
        → P.clock v.readings < P.clock w.readings + 600 * micro
        → P.answer v.readings ≡ reply
        → (consume_oauth_state {P = P} provider r.state flow v).0
          ≡ ok (record { flow = flow; user_id = user_id })
  build-consume provider flow user_id w w' v r h same early up =
      let key = state_key provider r.state in
      let o = state_payload flow user_id in
      let (target, stored) = build-eq-ok provider flow user_id w w' r h in
      consume-found provider r.state flow (P.dumps o) user_id v up
        (ground (
          arith,
          same,
          stored,
          ==_refl key,
          L.entries-setex (P.clock w.readings) key 600 (P.dumps o) w.store key,
          L.get_lem (P.clock v.readings) key v.store,
        ))
        (ground (arith, L.dumps-ne-empty o, ==_iff (P.dumps o) "")) (L.loads-dumps o) target
