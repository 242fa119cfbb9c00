-- ===== src/Signer/Server.antt =====
-- The requests of the signer: signer/index.ts, `handleRequest`.
use clmm_copybot.Common.{
  ℕ, ◌≡◌, refl, ap, String, Bool, true, false, ◌&&◌, ◌||◌, not, Option, none, some, List, arith,
  if◌then◌else◌, str_eq, is_text, value_or,
}
use clmm_copybot.Signer.{
  Message, LegacyInstruction, Transaction, versioned, legacy, Reason, PolicyResult, allowed,
  rejected, SignerConfig, Env,
}
use clmm_copybot.Signer.Policy.{check_policy}
use clmm_copybot.Signer.Safety.{IsSafe, check_policy_iff}

pub record Request : Type 0 where
  pub kind : Option String
  pub tx : Option String

pub data Response : Type 0 where
  signed : String → Response
  missing_field : Response
  invalid_type : String → Response
  refused : Reason → Response
  thrown : Response

abbrev is_signed : Response → Bool
is_signed (signed text) = true
is_signed _ = false

abbrev text_of : String → Response → String
text_of default (signed text) = text
text_of default _ = default

-- `JSON.parse` and what web3.js does with the bytes of a transaction, `none` where it throws: to
-- read it as one of its kind, and to sign it.
pub record Codec : Type 0 where
  pub parse : List ℕ → Option Request
  pub read_versioned : String → Option Message
  pub read_legacy : String → Option (List LegacyInstruction)
  pub sign : Transaction → Option String

no_sign : {A : Type 0} (r : Response) (text : String) → is_signed r ≡ false → r ≡ signed text → A
no_sign r text n e = absurd (ground (arith, n, e))

module _ (codec : Codec) where
  abbrev as_versioned : Option Message → Option Transaction
  as_versioned none = none
  as_versioned (some m) = some (versioned m)

  abbrev as_legacy : Option (List LegacyInstruction) → Option Transaction
  as_legacy none = none
  as_legacy (some ixs) = some (legacy ixs)

  unfoldable pub read_tx : String → String → Option Transaction
  read_tx kind tx =
      if str_eq kind "versioned"
      then as_versioned (codec.read_versioned tx)
      else as_legacy (codec.read_legacy tx)

  abbrev pub answer_signed : Option String → Response
  answer_signed none = thrown
  answer_signed (some text) = signed text

  module _ {Table : Type 0} (cfg : SignerConfig) (env : Env Table) where
    abbrev after_policy : Transaction → PolicyResult → Response
    after_policy tx allowed = answer_signed (codec.sign tx)
    after_policy tx (rejected why) = refused why

    abbrev policed : Option Transaction → Response
    policed none = thrown
    policed (some tx) = after_policy tx (check_policy cfg env tx)

    abbrev handle_parsed : Option Request → Response
    handle_parsed none = thrown
    handle_parsed (some r) =
        let kind = value_or r.kind "" in
        let tx = value_or r.tx "" in
        if not (is_text kind) || not (is_text tx)
        then missing_field
        else if not (str_eq kind "versioned") && not (str_eq kind "legacy")
        then invalid_type kind
        else policed (read_tx kind tx)

    unfoldable pub handle_request : List ℕ → Response
    unfolding read_tx
    handle_request payload = handle_parsed (codec.parse payload)

    -- A signed transaction has passed the policy, and it is the one of the request.
    abbrev pub IsSignedSafely : List ℕ → String → Type 0
    IsSignedSafely payload text =
        (r : Request) × ((tx : Transaction) × ((codec.parse payload ≡ some r)
            × ((read_tx (value_or r.kind "") (value_or r.tx "") ≡ some tx)
                × ((codec.sign tx ≡ some text) × IsSafe cfg env tx))))

    -- The signer signs nothing that is unsafe: where it answers with a signed transaction, the
    -- request held that transaction, it is safe in the sense of the policy, and the text is its
    -- signature.
    pub handle_request_signs :
        (payload : List ℕ) (text : String)
        → handle_request payload ≡ signed text
        → IsSignedSafely payload text
    unfolding handle_request
    handle_request_signs payload text h = parsed (codec.parse payload) refl h
      where
        sign_of : (o : Option String) → answer_signed o ≡ signed text → o ≡ some text
        sign_of none e = no_sign thrown text refl e
        sign_of (some t) e = ap some (ap (text_of text) e)

        safe :
            (tx : Transaction) (p : PolicyResult)
            → check_policy cfg env tx ≡ p
            → after_policy tx p ≡ signed text
            → (codec.sign tx ≡ some text) × IsSafe cfg env tx
        safe tx allowed c e = (sign_of (codec.sign tx) e, (check_policy_iff cfg env tx).0 c)
        safe tx (rejected why) c e = no_sign (refused why) text refl e

        read :
            (r : Request) (o : Option Transaction)
            → codec.parse payload ≡ some r
            → read_tx (value_or r.kind "") (value_or r.tx "") ≡ o
            → policed o ≡ signed text
            → IsSignedSafely payload text
        read r none p e h = no_sign thrown text refl h
        read r (some tx) p e h = (r, (tx, (p, (e, safe tx (check_policy cfg env tx) refl h))))

        valid :
            (a b : Bool) (kind : String) (r : Response)
            → (if a then missing_field else if b then invalid_type kind else r) ≡ signed text
            → r ≡ signed text
        valid true b kind r e = no_sign missing_field text refl e
        valid false true kind r e = no_sign (invalid_type kind) text refl e
        valid false false kind r e = e

        parsed :
            (o : Option Request)
            → codec.parse payload ≡ o
            → handle_parsed o ≡ signed text
            → IsSignedSafely payload text
        parsed none e h = no_sign thrown text refl h
        parsed (some r) e h =
            read r (read_tx (value_or r.kind "") (value_or r.tx "")) e refl
              (valid _ _ (value_or r.kind "") _ h)
