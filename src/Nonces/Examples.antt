-- ===== src/Nonces/Examples.antt =====
-- Tests of nonces.
use production_support_agent.Prelude.{
  ℕ, ◌+◌, String, ◌≡◌, refl, false, [], ◌∷◌, nat_eq, string_eq, find, delete_where,
}
use production_support_agent.Nonces.{Nonce, reserve_api_request_nonce, reserve_all, delete_where}

abbrev at_time : String → ℕ → Nonce
at_time nonce now = record {
  tenant_id = "t";
  actor_user_id = "u";
  nonce = nonce;
  request_hash = "h";
  created_at = now;
  expires_at = now + 300;
}

replayed_nonce_test :
    (reserve_api_request_nonce
      (reserve_all (reserve_api_request_nonce [] (at_time "n" 0)).0 (at_time "m" 10 ∷ []))
      (at_time "n" 20)).1
    ≡ false
unfolding reserve_api_request_nonce find delete_where reserve_all
replayed_nonce_test = refl
