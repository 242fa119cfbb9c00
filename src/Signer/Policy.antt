-- ===== src/Signer/Policy.antt =====
-- The policy: signer/policy.ts, with signer/alt-resolver.ts.
use clmm_copybot.Common.{
  ℕ, String, Bool, false, ◌&&◌, ◌||◌, not, Option, none, some, List, [], ◌∷◌, ◌++◌, ◌==◌,
  if◌then◌else◌, str_eq, is_text, has, get_elem?, any, map,
}
use clmm_copybot.Signer.{
  Compiled, Message, LegacyInstruction, Transaction, versioned, legacy, alt_resolution_failed,
  unknown_program, standalone_transfer, set_authority_blocked, unknown_invoked_program,
  PolicyResult, allowed, rejected, AccountInfo, owned, missing, throws, SignerConfig, Env,
}
use clmm_copybot.Signer.Invoked.{extract_invoked_programs}

abbrev pub spl_transfer : ℕ
spl_transfer = 3

abbrev pub spl_set_authority : ℕ
spl_set_authority = 6

abbrev pub spl_transfer_checked : ℕ
spl_transfer_checked = 12

abbrev pub token_program : String
token_program = "TokenkegQfeZyiNwAJbNbGKPFXCWuBvf9Ss623VQ5DA"

abbrev pub token_2022 : String
token_2022 = "TokenzQdBNbLqP5VEhdkAS6EPFLC1PHnBqCXEpPxuEb"

abbrev pub system_program : String
system_program = "11111111111111111111111111111111"

abbrev pub jupiter_program : String
jupiter_program = "JUP6LkbZbjS1jKKwapdHNy74zcZ3tLUZoi5QNyVTaV4"

-- Every table is there, or none is used.
abbrev pub all_there {ℓ} : {A : Type ℓ} → List (Option A) → Option (List A)
all_there [] = some []
all_there (none ∷ os) = none
all_there (some a ∷ os) = elim (all_there os) [ none ↦ none | some rest ↦ some (a ∷ rest) ]

-- What the policy reads of an instruction: its program, the first byte of its data, and what would
-- be the destination and the mint of a transfer.
pub record View : Type 0 where
  pub program : Option String
  pub disc : Option ℕ
  pub dest : Option String
  pub mint : Option String

abbrev pub is_disc : ℕ → Option ℕ → Bool
is_disc n none = false
is_disc n (some m) = m == n

abbrev pub key_at : List String → Option ℕ → Option String
key_at keys none = none
key_at keys (some i) = get_elem? keys i

abbrev pub view_compiled : List String → Compiled → View
view_compiled keys ix = record {
  program = get_elem? keys ix.program_id_index;
  disc = get_elem? ix.bytes 0;
  dest =
      key_at keys
        (get_elem? ix.account_key_indexes (if is_disc 3 (get_elem? ix.bytes 0) then 1 else 2));
  mint =
      if is_disc 12 (get_elem? ix.bytes 0)
      then key_at keys (get_elem? ix.account_key_indexes 1)
      else none;
}

abbrev pub view_legacy : LegacyInstruction → View
view_legacy ix = record {
  program = some ix.program_id;
  disc = get_elem? ix.bytes 0;
  dest = get_elem? ix.keys (if is_disc 3 (get_elem? ix.bytes 0) then 1 else 2);
  mint = if is_disc 12 (get_elem? ix.bytes 0) then get_elem? ix.keys 1 else none;
}

abbrev pub is_token_program : Option String → Bool
is_token_program none = false
is_token_program (some p) = str_eq p token_program || str_eq p token_2022

abbrev pub program_or_default : Option String → String
program_or_default none = token_program
program_or_default (some p) = p

abbrev add_id : Option String → List String → List String
add_id none seen = seen
add_id (some p) seen = if has p seen then seen else seen ++ (p ∷ [])

abbrev ids_from : List String → List Compiled → List String → List String
ids_from keys [] seen = seen
ids_from keys (ix ∷ ixs) seen = ids_from keys ixs (add_id (get_elem? keys ix.program_id_index) seen)

unfoldable pub extract_program_ids : List String → Message → List String
extract_program_ids keys message = ids_from keys message.compiled_instructions []

abbrev pub is_ata : String → Option String → Bool
is_ata dest none = false
is_ata dest (some a) = str_eq a dest

-- The first rejection ends a loop.
abbrev pub and_then : PolicyResult → PolicyResult → PolicyResult
and_then allowed r = r
and_then (rejected why) r = rejected why

abbrev pub has_jupiter : List String → Bool
has_jupiter ids = any (λ p. str_eq p jupiter_program) ids

module _ {Table : Type 0} (cfg : SignerConfig) (env : Env Table) where
  abbrev expand_there : Message → Option (List (Option Table)) → Option (List String)
  expand_there message none = none
  expand_there message (some accounts) = elim (all_there accounts) [
    | none ↦ none
    | some tables ↦ env.expand message tables
  ]

  -- The keys of a message, `none` where the source throws.
  unfoldable pub resolve_alts : Message → Option (List String)
  resolve_alts message = go message.address_table_lookups
    where
      go : List String → Option (List String)
      go [] = some message.static_account_keys
      go (l ∷ lookups) = expand_there message (env.tables (l ∷ lookups))

  unfoldable pub is_ata_for_whitelisted_owner : String → String → String → Bool
  is_ata_for_whitelisted_owner dest mint program =
      any (λ owner. is_ata dest (env.ata owner program mint)) cfg.destination_whitelist

  abbrev pub for_mint : String → Option String → String → Bool
  for_mint dest none program = false
  for_mint dest (some mint) program = is_text mint && is_ata_for_whitelisted_owner dest mint program

  -- An account of a known program that is not a wallet.
  abbrev pub is_vault : AccountInfo → Bool
  is_vault (owned owner) = not (str_eq owner system_program) && has owner cfg.program_allowlist
  is_vault missing = false
  is_vault throws = false

  unfoldable pub check_transfer_destination : String → Bool → Option String → String → PolicyResult
  unfolding is_ata_for_whitelisted_owner
  check_transfer_destination dest has_dex mint program =
      if has dest cfg.destination_whitelist
      then allowed
      else if for_mint dest mint program
      then allowed
      else if has_dex
      then allowed
      else if is_vault (env.account_info dest)
      then allowed
      else rejected (standalone_transfer dest)

  -- 2a: the first program that is not known.
  unfoldable pub check_programs : List String → PolicyResult
  check_programs [] = allowed
  check_programs (p ∷ ps) =
      let rest = check_programs ps in
      if has p cfg.program_allowlist then rest else rejected (unknown_program p)

  unfoldable pub check_transfer : Bool → View → Option String → PolicyResult
  check_transfer has_dex v none = allowed
  check_transfer has_dex v (some dest) =
      check_transfer_destination dest has_dex v.mint (program_or_default v.program)

  -- One instruction of loop 2b: an approval is only logged.
  unfoldable pub check_view : Bool → View → PolicyResult
  unfolding check_transfer
  check_view has_dex v =
      if not (is_token_program v.program)
      then allowed
      else if is_disc spl_transfer v.disc || is_disc spl_transfer_checked v.disc
      then check_transfer has_dex v v.dest
      else if is_disc spl_set_authority v.disc
      then rejected set_authority_blocked
      else allowed

  unfoldable pub check_views : Bool → List View → PolicyResult
  unfolding check_view
  check_views has_dex [] = allowed
  check_views has_dex (v ∷ vs) =
      let rest = check_views has_dex vs in and_then (check_view has_dex v) rest

  unfoldable pub check_invoked : List String → PolicyResult
  check_invoked [] = allowed
  check_invoked (p ∷ ps) =
      let rest = check_invoked ps in
      if has p cfg.program_allowlist then rest else rejected (unknown_invoked_program p)

  -- Step 3: a simulation that throws, fails or has no logs does not stop the transaction.
  abbrev pub check_simulation : Bool → Option (Option (List String)) → PolicyResult
  check_simulation has_jupiter none = allowed
  check_simulation has_jupiter (some none) = allowed
  check_simulation has_jupiter (some (some logs)) =
      if has_jupiter then allowed else check_invoked (extract_invoked_programs logs)

  abbrev pub has_dex_instruction : List String → Bool
  has_dex_instruction ids = any (λ p. has p cfg.dex_programs) ids

  -- Steps 2 and 3, with the programs and the views of the instructions.
  abbrev pub check_parts : Transaction → List String → List View → PolicyResult
  check_parts tx ids views = and_then (check_programs ids) (
      and_then (check_views (has_dex_instruction ids) views)
        (check_simulation (has_jupiter ids) (env.simulate tx)))

  abbrev pub check_resolved : Message → Option (List String) → PolicyResult
  check_resolved message none = rejected alt_resolution_failed
  check_resolved message (some keys) =
      check_parts (versioned message) (extract_program_ids keys message)
        (map (view_compiled keys) message.compiled_instructions)

  unfoldable pub check_policy : Transaction → PolicyResult
  unfolding resolve_alts check_programs check_views check_invoked
  check_policy (versioned message) = check_resolved message (resolve_alts message)
  check_policy (legacy ixs) =
      check_parts (legacy ixs) (map (λ ix. ix.program_id) ixs) (map view_legacy ixs)
