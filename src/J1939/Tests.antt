-- ===== src/J1939/Tests.antt =====
-- Concrete runs of the J1939 demo: two nodes, an identifier, a NAME, and a message of 16 bytes.
use iot_zephyr_app.Base.{
  ℕ, ◌≡◌, refl, Bool, true, false, none, some, List, [], ◌∷◌, if◌then◌else◌, ◌==◌, length, arith,
}
use iot_zephyr_app.Zephyr.Model.{model_bytes}
use iot_zephyr_app.J1939.{J1939, Name}
use iot_zephyr_app.J1939.Claim.{Heard, claim_address}
use iot_zephyr_app.J1939.Claim.Choice.{Chosen, first_free, claim_address-Chosen}
use iot_zephyr_app.J1939.Transport.{bam_sent, send_bam}
use iot_zephyr_app.J1939.Transport.Reassembly.{receive, receive-send_bam}

abbrev node : ℕ → Bool → J1939
node name valid = record {
  self_name = name;
  self_sa = 128;
  addr_valid = valid;
  claim_candidate_sa = 254;
  peer_seen = false;
  peer_name = 0;
  handlers = [];
  request_handler = none;
}

-- A claim of address 128 by the NAME 5, and nothing on other addresses.
abbrev claims : ℕ → List Heard
claims sa =
    if sa == 128 then record { sa = 128; bytes = 5 ∷ 0 ∷ 0 ∷ 0 ∷ 0 ∷ 0 ∷ 0 ∷ 0 ∷ [] } ∷ [] else []

test_claim : (claim_address model_bytes 128 claims (node 9 false)).1.self_sa ≡ 127
unfolding claim_address model_bytes
test_claim = refl

claim_address-Chosen_example :
    Chosen model_bytes
      (first_free model_bytes 9 claims 128)
      (claim_address model_bytes 128 claims (node 9 false))
claim_address-Chosen_example =
    claim_address-Chosen model_bytes 128 claims (node 9 false) (omega arith) refl

abbrev name : Name
name = record {
  ecu_instance = 1;
  function_instance = 2;
  function = 130;
  vehicle_system = 3;
  vehicle_system_instance = 4;
  industry_group = 5;
  manufacturer_code = 1234;
  identity_number = 654321;
}

abbrev message : List ℕ
message = 1 ∷ 2 ∷ 3 ∷ 4 ∷ 5 ∷ 6 ∷ 7 ∷ 8 ∷ 9 ∷ 10 ∷ 11 ∷ 12 ∷ 13 ∷ 14 ∷ 15 ∷ 16 ∷ []

test_frames : length (send_bam (node 9 true) (λ k. true) 65226 message).1 ≡ 4
unfolding send_bam
test_frames = refl

receive-send_bam_example :
    let (result, frames) = send_bam (node 9 true) (λ k. true) 65226 message in
    (result ≡ bam_sent) × (receive frames ≡ some (65226, message))
receive-send_bam_example =
    receive-send_bam (node 9 true) (λ k. true) 65226 message refl (omega arith) (λ k. refl)
      (omega arith) (omega arith) (omega arith)
