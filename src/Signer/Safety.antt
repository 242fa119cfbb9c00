-- ===== src/Signer/Safety.antt =====
-- What the policy lets pass is exactly what is safe (signer/policy.ts, `checkPolicy`).
use clmm_copybot.Common.{
  ℕ, ◌≡◌, ◌↔◌, ◌⊎◌, inl, inr, refl, String, Bool, true, false, ◌&&◌, ◌||◌, not, Option, none, some,
  List, [], ◌∷◌, map, arith, if◌then◌else◌, has, All,
}
use clmm_copybot.Signer.{
  Message, Transaction, versioned, legacy, Reason, PolicyResult, allowed, rejected, SignerConfig,
  Env, alt_resolution_failed, unknown_program, set_authority_blocked, unknown_invoked_program,
}
use clmm_copybot.Signer.Invoked.{extract_invoked_programs}
use clmm_copybot.Signer.Policy.{
  View, view_compiled, view_legacy, is_disc, is_token_program, for_mint, is_vault,
  program_or_default, resolve_alts, extract_program_ids, check_transfer_destination, check_programs,
  check_transfer, check_view, and_then, check_views, check_invoked, check_simulation,
  has_dex_instruction, has_jupiter, check_parts, check_resolved, check_policy, spl_transfer,
  spl_transfer_checked, spl_set_authority,
}

rejected≢allowed : (why : Reason) → rejected why ≡ allowed → ⊥
rejected≢allowed why h = ground (arith, h)

and_then_iff : (a b : PolicyResult) → (and_then a b ≡ allowed) ↔ ((a ≡ allowed) × (b ≡ allowed))
and_then_iff allowed b = ((λ h. (refl, h)), (λ h. h.1))
and_then_iff (rejected why) b =
    ((λ h. absurd (rejected≢allowed why h)), (λ h. absurd (rejected≢allowed why h.0)))

or_reject_iff :
    (t : Bool) (r : PolicyResult) (why : Reason)
    → ((if t then r else rejected why) ≡ allowed) ↔ ((t ≡ true) × (r ≡ allowed))
or_reject_iff true r why = ((λ h. (refl, h)), (λ h. h.1))
or_reject_iff false r why = ((λ h. absurd (rejected≢allowed why h)), (λ h. ground (arith, h.0)))

module _ {Table : Type 0} (cfg : SignerConfig) (env : Env Table) where
  abbrev pub IsListed : String → Type 0
  IsListed p = has p cfg.program_allowlist ≡ true

  -- Someone answers for the destination: the whitelist, as the address or as the owner of the
  -- associated account; an exchange in the same transaction; or a known program that owns it.
  abbrev pub IsVouched : Bool → Option String → String → String → Type 0
  IsVouched has_dex mint program dest =
      (has dest cfg.destination_whitelist ≡ true)
      ⊎ ((for_mint cfg env dest mint program ≡ true)
          ⊎ ((has_dex ≡ true) ⊎ (is_vault cfg env (env.account_info dest) ≡ true)))

  abbrev pub HasVouched : Bool → View → Option String → Type 0
  HasVouched has_dex v none = Unit
  HasVouched has_dex v (some dest) = IsVouched has_dex v.mint (program_or_default v.program) dest

  -- An instruction of another program, or a token instruction that changes no authority and, if it
  -- is a transfer, has a destination that someone answers for.
  abbrev pub IsSafeView : Bool → View → Type 0
  IsSafeView has_dex v =
      (is_token_program v.program ≡ false)
      ⊎ ((is_disc spl_set_authority v.disc ≡ false)
          × (((is_disc spl_transfer v.disc || is_disc spl_transfer_checked v.disc) ≡ false)
              ⊎ HasVouched has_dex v v.dest))

  -- Where the simulation has logs, they name known programs only, unless Jupiter routes.
  abbrev pub IsSafeSimulation : Bool → Option (Option (List String)) → Type 0
  IsSafeSimulation jupiter none = Unit
  IsSafeSimulation jupiter (some none) = Unit
  IsSafeSimulation jupiter (some (some logs)) =
      (jupiter ≡ true) ⊎ All IsListed (extract_invoked_programs logs)

  abbrev pub IsSafeParts : Transaction → List String → List View → Type 0
  IsSafeParts tx ids views =
      All IsListed ids
      × (All (IsSafeView (has_dex_instruction cfg env ids)) views
          × IsSafeSimulation (has_jupiter ids) (env.simulate tx))

  abbrev pub IsSafeResolved : Message → Option (List String) → Type 0
  IsSafeResolved message none = ⊥
  IsSafeResolved message (some keys) =
      IsSafeParts (versioned message) (extract_program_ids keys message)
        (map (view_compiled keys) message.compiled_instructions)

  abbrev pub IsSafe : Transaction → Type 0
  IsSafe (versioned message) = IsSafeResolved message (resolve_alts cfg env message)
  IsSafe (legacy ixs) =
      IsSafeParts (legacy ixs) (map (λ ix. ix.program_id) ixs) (map view_legacy ixs)

  check_programs_iff :
      (ids : List String) → (check_programs cfg env ids ≡ allowed) ↔ All IsListed ids
  unfolding check_programs
  check_programs_iff [] = ((λ h. tt), (λ h. refl))
  check_programs_iff (p ∷ ps) =
      let (to, from) =
        or_reject_iff (has p cfg.program_allowlist) (check_programs cfg env ps)
          (unknown_program p) in
      (
        (λ h. ((to h).0, (check_programs_iff ps).0 (to h).1)),
        (λ h. from (h.0, (check_programs_iff ps).1 h.1)),
      )

  check_invoked_iff : (ids : List String) → (check_invoked cfg env ids ≡ allowed) ↔ All IsListed ids
  unfolding check_invoked
  check_invoked_iff [] = ((λ h. tt), (λ h. refl))
  check_invoked_iff (p ∷ ps) =
      let (to, from) =
        or_reject_iff (has p cfg.program_allowlist) (check_invoked cfg env ps)
          (unknown_invoked_program p) in
      (
        (λ h. ((to h).0, (check_invoked_iff ps).0 (to h).1)),
        (λ h. from (h.0, (check_invoked_iff ps).1 h.1)),
      )

  four_iff :
      (a b c d : Bool) (why : Reason)
      → ((if a
            then allowed
            else if b
            then allowed
            else if c
            then allowed
            else if d
            then allowed
            else rejected why)
          ≡ allowed)
        ↔ ((a ≡ true) ⊎ ((b ≡ true) ⊎ ((c ≡ true) ⊎ (d ≡ true))))
  four_iff true b c d why = ((λ h. inl refl), (λ h. refl))
  four_iff false true c d why = ((λ h. inr (inl refl)), (λ h. refl))
  four_iff false false true d why = ((λ h. inr (inr (inl refl))), (λ h. refl))
  four_iff false false false true why = ((λ h. inr (inr (inr refl))), (λ h. refl))
  four_iff false false false false why =
      ((λ h. absurd (rejected≢allowed why h)), (λ h. ground (arith, h)))

  check_transfer_iff :
      (has_dex : Bool) (v : View) (dest : Option String)
      → (check_transfer cfg env has_dex v dest ≡ allowed) ↔ HasVouched has_dex v dest
  unfolding check_transfer check_transfer_destination
  check_transfer_iff has_dex v none = ((λ h. tt), (λ h. refl))
  check_transfer_iff has_dex v (some dest) = four_iff _ _ _ _ _

  view_iff :
      (token transfer authority : Bool) (r : PolicyResult) (V : Type 0)
      → (r ≡ allowed) ↔ V
      → (transfer && authority) ≡ false
      → ((if not token
            then allowed
            else if transfer
            then r
            else if authority
            then rejected set_authority_blocked
            else allowed)
          ≡ allowed)
        ↔ ((token ≡ false) ⊎ ((authority ≡ false) × ((transfer ≡ false) ⊎ V)))
  view_iff false transfer authority r V iff one = ((λ h. inl refl), (λ h. refl))
  view_iff true true true r V iff one = ((λ h. ground (arith, one)), (λ h. ground (arith, one)))
  view_iff true true false r V iff one = ((λ h. inr (refl, inr (iff.0 h))), (λ h. by h))
    where
      by : (true ≡ false) ⊎ ((false ≡ false) × ((true ≡ false) ⊎ V)) → r ≡ allowed
      by (inl e) = ground (arith, e)
      by (inr (e, inl f)) = ground (arith, f)
      by (inr (e, inr v)) = iff.1 v
  view_iff true false true r V iff one =
      ((λ h. absurd (rejected≢allowed set_authority_blocked h)), (λ h. by h))
    where
      by :
          (true ≡ false) ⊎ ((true ≡ false) × ((false ≡ false) ⊎ V))
          → rejected set_authority_blocked ≡ allowed
      by (inl e) = ground (arith, e)
      by (inr (e, f)) = ground (arith, e)
  view_iff true false false r V iff one = ((λ h. inr (refl, inl refl)), (λ h. refl))

  one_disc :
      (d : Option ℕ)
      → ((is_disc spl_transfer d || is_disc spl_transfer_checked d) && is_disc spl_set_authority d)
        ≡ false
  one_disc none = refl
  one_disc (some n) = ground arith

  check_view_iff :
      (has_dex : Bool) (v : View) → (check_view cfg env has_dex v ≡ allowed) ↔ IsSafeView has_dex v
  unfolding check_view
  check_view_iff has_dex v =
      view_iff (is_token_program v.program)
        (is_disc spl_transfer v.disc || is_disc spl_transfer_checked v.disc)
        (is_disc spl_set_authority v.disc) (check_transfer cfg env has_dex v v.dest)
        (HasVouched has_dex v v.dest) (check_transfer_iff has_dex v v.dest) (one_disc v.disc)

  check_views_iff :
      (has_dex : Bool) (vs : List View)
      → (check_views cfg env has_dex vs ≡ allowed) ↔ All (IsSafeView has_dex) vs
  unfolding check_views
  check_views_iff has_dex [] = ((λ h. tt), (λ h. refl))
  check_views_iff has_dex (v ∷ vs) =
      let (to, from) =
        and_then_iff (check_view cfg env has_dex v) (check_views cfg env has_dex vs) in
      (
        (λ h. ((check_view_iff has_dex v).0 (to h).0, (check_views_iff has_dex vs).0 (to h).1)),
        (λ h. from ((check_view_iff has_dex v).1 h.0, (check_views_iff has_dex vs).1 h.1)),
      )

  check_simulation_iff :
      (jupiter : Bool) (o : Option (Option (List String)))
      → (check_simulation cfg env jupiter o ≡ allowed) ↔ IsSafeSimulation jupiter o
  check_simulation_iff jupiter none = ((λ h. tt), (λ h. refl))
  check_simulation_iff jupiter (some none) = ((λ h. tt), (λ h. refl))
  check_simulation_iff true (some (some logs)) = ((λ h. inl refl), (λ h. refl))
  check_simulation_iff false (some (some logs)) =
      ((λ h. inr ((check_invoked_iff (extract_invoked_programs logs)).0 h)), (λ h. by h))
    where
      by :
          (false ≡ true) ⊎ All IsListed (extract_invoked_programs logs)
          → check_invoked cfg env (extract_invoked_programs logs) ≡ allowed
      by (inl e) = ground (arith, e)
      by (inr all) = (check_invoked_iff (extract_invoked_programs logs)).1 all

  check_parts_iff :
      (tx : Transaction) (ids : List String) (views : List View)
      → (check_parts cfg env tx ids views ≡ allowed) ↔ IsSafeParts tx ids views
  check_parts_iff tx ids views =
      let programs = check_programs_iff ids in
      let tokens = check_views_iff (has_dex_instruction cfg env ids) views in
      let simulation = check_simulation_iff (has_jupiter ids) (env.simulate tx) in
      let (to, from) = and_then_iff (check_programs cfg env ids) (
        and_then (check_views cfg env (has_dex_instruction cfg env ids) views)
          (check_simulation cfg env (has_jupiter ids) (env.simulate tx))) in
      let (to2, from2) =
        and_then_iff (check_views cfg env (has_dex_instruction cfg env ids) views)
          (check_simulation cfg env (has_jupiter ids) (env.simulate tx)) in
      (
        (λ h. (programs.0 (to h).0, (tokens.0 (to2 (to h).1).0, simulation.0 (to2 (to h).1).1))),
        (λ h. from (programs.1 h.0, from2 (tokens.1 h.1.0, simulation.1 h.1.1))),
      )

  pub check_policy_iff : (tx : Transaction) → (check_policy cfg env tx ≡ allowed) ↔ IsSafe tx
  unfolding check_policy
  check_policy_iff (legacy ixs) =
      check_parts_iff (legacy ixs) (map (λ ix. ix.program_id) ixs) (map view_legacy ixs)
  check_policy_iff (versioned message) = resolved (resolve_alts cfg env message)
    where
      resolved :
          (o : Option (List String))
          → (check_resolved cfg env message o ≡ allowed) ↔ IsSafeResolved message o
      resolved none = ((λ h. absurd (rejected≢allowed alt_resolution_failed h)), (λ h. absurd h))
      resolved (some keys) = check_parts_iff (versioned message) _ _
