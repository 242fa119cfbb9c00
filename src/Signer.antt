-- ===== src/Signer.antt =====
-- The local signer, a process that signs what a policy lets pass: signer/policy.ts,
-- signer/alt-resolver.ts, and the requests and frames of signer/index.ts.
pub mod Invoked
pub mod Policy
pub mod Safety
pub mod Server
pub mod Frames
pub mod Reassembly
mod Tests
use clmm_copybot.Common.{ℕ, String, Bool, Option, none, some, List, [], ◌∷◌}

-- The message of a versioned transaction.
pub record Compiled : Type 0 where
  pub program_id_index : ℕ
  pub account_key_indexes : List ℕ
  pub bytes : List ℕ

pub record Message : Type 0 where
  pub static_account_keys : List String
  pub address_table_lookups : List String
  pub compiled_instructions : List Compiled

-- An instruction of a legacy transaction.
pub record LegacyInstruction : Type 0 where
  pub program_id : String
  pub keys : List String
  pub bytes : List ℕ

pub data Transaction : Type 0 where
  versioned : Message → Transaction
  legacy : List LegacyInstruction → Transaction

-- The texts of the reasons, as constructors.
pub data Reason : Type 0 where
  alt_resolution_failed : Reason
  unknown_program : String → Reason
  standalone_transfer : String → Reason
  set_authority_blocked : Reason
  unknown_invoked_program : String → Reason

pub data PolicyResult : Type 0 where
  allowed : PolicyResult
  rejected : Reason → PolicyResult

-- What an account's look-up returns.
pub data AccountInfo : Type 0 where
  owned : String → AccountInfo
  missing : AccountInfo
  throws : AccountInfo

pub record SignerConfig : Type 0 where
  pub program_allowlist : List String
  pub destination_whitelist : List String
  pub dex_programs : List String

-- The RPC node and the functions of web3.js. `tables` has the accounts of look-up tables, `none`
-- where the request throws; `expand` is `getAccountKeys` on tables that are all there; `ata` is the
-- associated account of an owner, a token program and a mint, `none` where a text is no key; the
-- logs of a simulation are missing, or the simulation throws.
pub record Env (Table : Type 0) : Type 0 where
  pub tables : List String → Option (List (Option Table))
  pub expand : Message → List Table → Option (List String)
  pub account_info : String → AccountInfo
  pub ata : String → String → String → Option String
  pub simulate : Transaction → Option (Option (List String))
