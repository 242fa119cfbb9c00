-- ===== src/OpenedReferers.antt =====
-- The positions that were copied, by the position that their owner had copied in turn:
-- src/state/opened-referers-store.ts with the statements of src/state/repo/openedReferers.ts, the
-- policy of src/utils/byreal-allow-same-tick.ts, and its use in src/executor/byreal-position.ts.
pub mod Table
pub mod Duplicates
mod Tests
use clmm_copybot.Common.{
  ℕ, String, Bool, true, false, ◌&&◌, ◌||◌, not, Option, none, some, List, [], ◌∷◌, length,
  if◌then◌else◌, str_eq, is_text, has, trim,
}
use clmm_copybot.Common.Dict.{lookup, insert, delete}
use clmm_copybot.WriteChain.{Write, upsert, remove, Chain, idle, enable, push}

pub record Entry : Type 0 where
  pub target_nft : String
  pub our_nft : String
  pub target_wallet : String
  pub opened_at : ℕ

pub record Store : Type 0 where
  pub map : List (String × Entry)
  pub writes : Chain Entry

abbrev pub new : Store
new = record { map = []; writes = idle }

-- The rows of the table replace the entries, and writes are armed.
unfoldable pub init_opened_referers : List (String × Entry) → Store → Store
init_opened_referers rows s = record { map = rows; writes = enable s.writes }

unfoldable pub count_opened_referers : Store → ℕ
count_opened_referers s = length s.map

unfoldable pub get_opened_referer : String → Store → Option Entry
get_opened_referer referer_position s = lookup referer_position s.map

abbrev pub opened_referers_add : String → String → String → String → ℕ → Write Entry
opened_referers_add referer_position target_nft our_nft target_wallet opened_at =
    upsert referer_position (record {
      target_nft = target_nft;
      our_nft = our_nft;
      target_wallet = target_wallet;
      opened_at = opened_at;
    })

abbrev pub opened_referers_delete : String → Write Entry
opened_referers_delete referer_position = remove referer_position

unfoldable pub add_opened_referer : String → String → String → String → ℕ → Store → Store
add_opened_referer referer_position target_nft our_nft target_wallet now s = record {
  map =
      insert referer_position
        (record {
          target_nft = target_nft;
          our_nft = our_nft;
          target_wallet = target_wallet;
          opened_at = now;
        })
        s.map;
  writes =
      push (opened_referers_add referer_position target_nft our_nft target_wallet now) s.writes;
}

-- The first entry, in the order of the map, that was opened for a target NFT.
unfoldable pub find_target : String → List (String × Entry) → Option String
find_target target_nft [] = none
find_target target_nft ((k, e) ∷ m) =
    let rest = find_target target_nft m in if str_eq e.target_nft target_nft then some k else rest

abbrev pub remove_found : Option String → Store → Store × Bool
remove_found none s = (s, false)
remove_found (some referer_position) s = (
  record {
    map = delete referer_position s.map;
    writes = push (opened_referers_delete referer_position) s.writes;
  },
  true,
)

unfoldable pub remove_opened_referer_by_target_nft : String → Store → Store × Bool
remove_opened_referer_by_target_nft target_nft s = remove_found (find_target target_nft s.map) s

-- The switches of the configuration that the policy reads; the sets are given by their elements.
pub record Policy : Type 0 where
  pub allow_same_wallet_reopen : Bool
  pub allow_opened_by_wallets : List String
  pub allow_open_after_others_wallets : List String

-- The wallet of an entry is a text wherever an entry is read.
unfoldable pub should_ignore_referer_blocker : String → String → Policy → Bool
should_ignore_referer_blocker blocker_target_wallet candidate_target_wallet p =
    let blocker = trim blocker_target_wallet in
    let candidate = trim candidate_target_wallet in
    is_text blocker
    && (is_text candidate
        && (not (str_eq blocker candidate)
            && (has blocker p.allow_opened_by_wallets
                || has candidate p.allow_open_after_others_wallets)))

unfoldable pub is_referer_duplicate_entry : Option Entry → String → Policy → Bool
is_referer_duplicate_entry none candidate p = false
is_referer_duplicate_entry (some e) candidate p =
    if p.allow_same_wallet_reopen && str_eq e.target_wallet candidate
    then false
    else if should_ignore_referer_blocker e.target_wallet candidate p
    then false
    else true

-- `refererPosition` is null where the target's position copies none.
unfoldable pub is_referer_duplicate : Option String → String → Policy → Store → Bool
is_referer_duplicate none target_wallet p s = false
is_referer_duplicate (some referer_position) target_wallet p s =
    if is_text referer_position
    then is_referer_duplicate_entry (get_opened_referer referer_position s) target_wallet p
    else false
