-- ===== src/PositionMap/Removal.antt =====
-- Reverse lookup and removal by our NFT (src/state/position-map.ts).
use clmm_copybot.Common.{
  suc, ◌≡◌, ◌⊎◌, inl, inr, true, false, String, Option, none, some, List, [], ◌∷◌, arith,
  Bool-cases, Option-cases, is_some, is_text, if◌then◌else◌, str_eq, eq_iff, All, ◌≢◌,
}
use clmm_copybot.Common.Dict.{
  lookup, IsUnique, lookup-delete, length-delete, insert-IsUnique, delete-IsUnique, update-IsUnique,
}
use clmm_copybot.WriteChain.{Write}
use clmm_copybot.PositionMap.{
  Entry, Row, PositionMap, set, delete_mapping, find_our, find_by_our_nft, delete_found,
  delete_by_our_nft, change, set_dex, set_pool, set_locked_sol, set_target_liquidity,
}
use clmm_copybot.PositionMap.Queries.{size}
use clmm_copybot.PositionMap.Table.{
  Call, set_call, delete_call, delete_by_our_nft_call, set_dex_call, set_pool_call,
  set_locked_sol_call, set_target_liquidity_call, call, run,
}

module _ {S : Type 0} where
  change-IsUnique :
      (nft : String) (f : Entry S → Entry S) (w : Write (Row S)) (m : PositionMap S)
      → IsUnique m.map
      → IsUnique (change nft f w m).map
  change-IsUnique nft f w m u = elim (Bool-cases (is_some (lookup nft m.map))) [
    | inl there ↦ rw there (update-IsUnique nft f m.map u)
    | inr missing ↦ rw missing u
  ]

  delete_found-IsUnique :
      (o : Option String) (m : PositionMap S) → IsUnique m.map → IsUnique (delete_found o m).0.map
  unfolding delete_mapping
  delete_found-IsUnique none m u = u
  delete_found-IsUnique (some nft) m u = elim (Bool-cases (is_text nft)) [
    | inl key ↦ rw key (delete-IsUnique nft m.map u)
    | inr blank ↦ rw blank u
  ]

  call-IsUnique : (c : Call S) (m : PositionMap S) → IsUnique m.map → IsUnique (call c m).map
  unfolding call set set_dex set_pool set_locked_sol set_target_liquidity delete_by_our_nft
  call-IsUnique (set_call nft our pool wallet lower upper dex now) m u =
      insert-IsUnique nft _ m.map u
  call-IsUnique (delete_call nft) m u = unfold delete_mapping in delete-IsUnique nft m.map u
  call-IsUnique (delete_by_our_nft_call our) m u = delete_found-IsUnique (find_by_our_nft our m) m u
  call-IsUnique (set_dex_call nft dex) m u = change-IsUnique nft _ _ m u
  call-IsUnique (set_pool_call nft pool) m u = change-IsUnique nft _ _ m u
  call-IsUnique (set_locked_sol_call nft sol) m u = change-IsUnique nft _ _ m u
  call-IsUnique (set_target_liquidity_call nft l) m u = change-IsUnique nft _ _ m u

  pub run-IsUnique :
      (cs : List (Call S)) (m : PositionMap S) → IsUnique m.map → IsUnique (run cs m).map
  unfolding run
  run-IsUnique [] m u = u
  run-IsUnique (c ∷ cs) m u = run-IsUnique cs (call c m) (call-IsUnique c m u)

  -- No entry of the map stands for the NFT.
  abbrev pub HasNone : String → List (String × Entry S) → Type 0
  HasNone our = All (λ b. b.1.our_nft ≢ our)

  find_our-none :
      (our : String) (m : List (String × Entry S)) → find_our our m ≡ none → HasNone our m
  unfolding find_our
  find_our-none our [] h = tt
  find_our-none our ((k, e) ∷ m) h = elim (Bool-cases (str_eq e.our_nft our)) [
    | inl same ↦ ground (arith)
    | inr other ↦ (ground (arith, eq_iff e.our_nft our), find_our-none our m (ground arith))
  ]

  find_our-some :
      (our nft : String) (m : List (String × Entry S))
      → IsUnique m
      → find_our our m ≡ some nft
      → (e : Entry S) × (lookup nft m ≡ some e) × (e.our_nft ≡ our)
  unfolding find_our lookup
  find_our-some our nft [] u h = ground arith
  find_our-some our nft ((k, e) ∷ m) u h = elim (Bool-cases (str_eq e.our_nft our)) [
    | inl same ↦ (e, ground (arith, eq_iff k nft), (eq_iff e.our_nft our).0 same)
    | inr other ↦
        let (d, found, ours) = find_our-some our nft m u.1 (ground arith) in
        (d, ground (arith, eq_iff k nft, found, u.0), ours)
  ]

  -- What removal by our NFT does where an entry was found, and where none was.
  abbrev pub RemovedOne : String → PositionMap S → PositionMap S → Type 0
  RemovedOne our m m' =
      (nft : String) × (e : Entry S) × (lookup nft m.map ≡ some e)
      × (e.our_nft ≡ our)
      × ((j : String) → lookup j m'.map ≡ (if str_eq nft j then none else lookup j m.map))
      × (size m ≡ suc (size m'))

  delete-RemovedOne :
      (our nft : String) (m : PositionMap S)
      → IsUnique m.map
      → find_our our m.map ≡ some nft
      → RemovedOne our m (delete_mapping nft m)
  unfolding delete_mapping size
  delete-RemovedOne our nft m u h =
      let (e, found, ours) = find_our-some our nft m.map u h in
      (
        nft,
        e,
        found,
        ours,
        λ j. lookup-delete j nft m.map,
        ground (arith, length-delete nft m.map u, found),
      )

  -- In a map with no key twice and none empty, `deleteByOurNft` reports false and changes nothing
  -- where no entry has the NFT; otherwise it reports true, and removes one entry that has it and
  -- no other.
  pub delete_by_our_nft_lem :
      (our : String) (m : PositionMap S)
      → IsUnique m.map
      → lookup "" m.map ≡ none
      → (HasNone our m.map × (delete_by_our_nft our m ≡ (m, false)))
        ⊎ (((delete_by_our_nft our m).1 ≡ true) × RemovedOne our m (delete_by_our_nft our m).0)
  unfolding delete_by_our_nft
  delete_by_our_nft_lem our m u no_empty = elim (Option-cases (find_our our m.map)) [
    | inl missing ↦ inl (find_our-none our m.map missing, rw missing)
    | inr (nft, e) ↦
        let (d, found, ours) = find_our-some our nft m.map u e in
        let key : is_text nft ≡ true = ground (arith, eq_iff nft "", found, no_empty) in
        inr (rw (e, key), rw (e, key) (delete-RemovedOne our nft m u e))
  ]
