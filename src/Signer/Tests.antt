-- ===== src/Signer/Tests.antt =====
-- Transactions that the signer lets pass or rejects, its frames, and its theorems at them.
use clmm_copybot.Common.{ℕ, ◌≡◌, refl, String, none, some, List, [], ◌∷◌, arith}
use clmm_copybot.Signer.{
  Transaction, versioned, legacy, allowed, rejected, set_authority_blocked, standalone_transfer,
  unknown_invoked_program, missing, SignerConfig, Env,
}
use clmm_copybot.Signer.Invoked.{extract_invoked_programs}
use clmm_copybot.Signer.Policy.{
  check_policy, check_transfer_destination, extract_program_ids, token_program,
}
use clmm_copybot.Signer.Server.{Codec, signed, handle_request, IsSignedSafely, handle_request_signs}
use clmm_copybot.Signer.Frames.{start, feed, frame}
use clmm_copybot.Signer.Reassembly.{concat, feed-frame}

abbrev config : SignerConfig
config = record {
  program_allowlist = token_program ∷ "ORC" ∷ [];
  destination_whitelist = "COLD" ∷ [];
  dex_programs = "ORC" ∷ [];
}

abbrev env : Env ℕ
env = record {
  tables = λ keys. none;
  expand = λ m tables. none;
  account_info = λ a. missing;
  ata = λ owner program mint. none;
  simulate = λ tx. some (some ("Program EvilEvilEvilEvilEvilEvilEvilEvil invoke [2]" ∷ []));
}

abbrev calm : Env ℕ
calm = record env { simulate = λ tx. none }

-- A transfer to an address.
abbrev transfer_to : String → Transaction
transfer_to dest = versioned (record {
  static_account_keys = "ME" ∷ "SRC" ∷ dest ∷ token_program ∷ [];
  address_table_lookups = [];
  compiled_instructions =
      record { program_id_index = 3; account_key_indexes = 1 ∷ 2 ∷ 0 ∷ []; bytes = 3 ∷ 1 ∷ [] }
      ∷ [];
})

abbrev set_authority : Transaction
set_authority = legacy (record { program_id = token_program; keys = "A" ∷ []; bytes = 6 ∷ [] } ∷ [])

policy : Unit {0}
unfolding check_policy check_transfer_destination extract_program_ids extract_invoked_programs
policy = tt

policy_tests :
    (check_policy config calm (transfer_to "COLD") ≡ allowed)
    × ((check_policy config calm (transfer_to "THIEF") ≡ rejected (standalone_transfer "THIEF"))
        × ((check_policy config calm set_authority ≡ rejected set_authority_blocked)
            × (check_policy config env (transfer_to "COLD")
                ≡ rejected (unknown_invoked_program "EvilEvilEvilEvilEvilEvilEvilEvil"))))
unfolding policy
policy_tests = (refl, (refl, (refl, refl)))

abbrev codec : Codec
codec = record {
  parse = λ bytes. some (record { kind = some "legacy"; tx = some "AAAA" });
  read_versioned = λ t. none;
  read_legacy = λ t. some [];
  sign = λ t. some "SIGNED";
}

abbrev payload : List ℕ
payload = 7 ∷ 8 ∷ 9 ∷ []

signs : handle_request codec config calm payload ≡ signed "SIGNED"
unfolding policy handle_request
signs = refl

handle_request_signs_example : IsSignedSafely codec config calm payload "SIGNED"
handle_request_signs_example = handle_request_signs codec config calm payload "SIGNED" signs

abbrev chunks : List (List ℕ)
chunks = (0 ∷ 0 ∷ []) ∷ [] ∷ (0 ∷ 3 ∷ 7 ∷ []) ∷ (8 ∷ 9 ∷ []) ∷ []

whole : concat chunks ≡ frame payload
unfolding frame
whole = refl

feed-frame_example : feed chunks start ≡ (start, payload ∷ [])
feed-frame_example = feed-frame payload chunks (omega arith) whole
