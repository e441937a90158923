-- ===== src/Tests/Watching.antt =====
-- Runs of the order watcher on a store that has every order and a tree that is a list.
use x_mesh.Prelude.{
  ℕ, ◌+◌, ◌≡◌, ◌≢◌, refl, ap, Bool, true, false, none, some, subst, ◌≤◌, inl, inr, ==_iff,
  Bool-cases, List, [], ◌∷◌, length, All, ◌==◌, arith,
}
use x_mesh.Errors.{out_of_fuel, other, Result, ok, err}
use x_mesh.Db.Escape.{Bytes}
use x_mesh.Db.Keys.{named}
use x_mesh.Db.Query.{Slice, Iterator}
use x_mesh.MiniHeader.{MiniHeader}
use x_mesh.BlockWatch.Types.{Event, added, removed}
use x_mesh.StringSet.{contains}
use x_mesh.AssetData.{MultiAssetData, get_name, info_of, decode}
use x_mesh.OrderValidator.{
  AcceptedOrderInfo, ValidationResults, zero_ex_validation, ro_expired, ro_invalid_signature,
  convert_status,
}
use x_mesh.ExpirationWatch.{unix}
use x_mesh.OrderWatch.{Order, Books, Setting, expiration_of}
use x_mesh.OrderWatch.Known.{Orders}
use x_mesh.OrderWatch.Results.{
  accept_order, accept_all, reject_all, reject_one, reject_kind, reject_found, reject_order,
  reject_known, convert_validation_results_into_order_events,
}
use x_mesh.Orders.{es_order_unexpired, es_order_filled}
use x_mesh.OrderWatch.Results.Errors.{Unexpected, convert_validation_results-Unexpected}
use x_mesh.OrderWatch.Results.Amounts.{Reported, accept_order-Reported}
use x_mesh.OrderWatch.Watching.Converted.{Agree, convert_validation_results-Agree}
use x_mesh.OrderWatch.Headers.{sort_events}
use x_mesh.OrderWatch.Headers.Net.{IsSingle, is_stored_after, is_stored_by, sort_events-IsSingle}
use x_mesh.OrderWatch.Expirations.{handle_order_expirations}
use x_mesh.OrderWatch.Expirations.Expired.{IsExpiry, handle_order_expirations-expired}
use x_mesh.OrderWatch.Contracts.{
  Contracts, parts_of, walk, add_contract, add_asset_data, remove_asset_data,
}
use x_mesh.OrderWatch.Contracts.Counts.{remove_asset_data-add_asset_data}
use x_mesh.OrderWatch.Contracts.Depth.{NestedShorter}
use x_mesh.OrderWatch.Contracts.Ends.{OwnErrors, fails_for_fuel, add_asset_data_total}
use x_mesh.Tests.Trees.{Entries, entries_tree, entries_laws}
use x_mesh.Tests.Validation.{order_for, some_token, byte_abi}

-- An order that is watched: it expires in second 5.
abbrev pub watched_order : Order
watched_order = record {
  hash = 8;
  signed_order = order_for 50 5;
  last_updated = 0;
  fillable_taker_asset_amount = 50;
  is_removed = false;
  is_pinned = false;
}

abbrev pub setting : Setting Entries Unit
setting = record {
  rb_tree = entries_tree;
  codec = record {
    id = λ order. order.hash ∷ [];
    type_of = λ order. named 1;
    marshal = λ order. ok [];
    unmarshal = λ encoded. ok watched_order;
    itoa = λ n. n ∷ [];
    atoi = λ encoded. ok 1;
  };
  ldb = record { get = λ s key. ok []; has = λ s key. ok true; write = λ s ops. ok s };
  info = record { name = []; model_type = named 1; indexes = [] };
  db = record { store = tt; locked = true };
  hex = λ hash. hash ∷ [];
  now = λ tick. 1000 + tick;
}

abbrev open_books : Books Entries
open_books = record {
  tree = (5, (8 ∷ []) ∷ []) ∷ [];
  txn = record {
    batch = [];
    is_held = false;
    is_committed = false;
    is_discarded = false;
    internal_count = 0;
    affected_ids = [];
  };
  ticks = 0;
}

abbrev one_order : Orders
one_order = (8, watched_order) ∷ []

-- The amount of the order fell to 20.
abbrev accepted_info : AcceptedOrderInfo
accepted_info = record {
  order_hash = 8;
  signed_order = order_for 50 5;
  fillable_taker_asset_amount = 20;
  is_new = false;
}

abbrev flagged_order : Order
flagged_order = record watched_order { is_removed = true }

accept_order-Reported_example :
    Reported setting 4000000000
      (order_for 50 5)
      20
      false
      (es_order_unexpired ∷ es_order_filled ∷ [])
      (accept_order setting 4000000000 [] accepted_info flagged_order open_books)
accept_order-Reported_example =
    accept_order-Reported setting 4000000000 [] accepted_info flagged_order open_books

-- The chain says that the signature is not valid.
abbrev unexpected_result : ValidationResults
unexpected_result = record {
  accepted = [];
  rejected =
      record {
        order_hash = 8;
        signed_order = order_for 50 5;
        kind = zero_ex_validation;
        status = ro_invalid_signature;
      }
      ∷ [];
}

convert_validation_results-Unexpected_example : Unexpected unexpected_result.rejected
unfolding convert_validation_results_into_order_events accept_all reject_all reject_one reject_kind
    reject_found reject_order reject_known convert_status
convert_validation_results-Unexpected_example =
    convert_validation_results-Unexpected setting 4000000000 [] unexpected_result one_order
      open_books (other "no OrderEventEndState corresponding to RejectedOrderStatus") refl

abbrev first_or_zero : Bytes → ℕ
first_or_zero [] = 0
first_or_zero (b ∷ bs) = b

pub one_byte_injective : (a b : ℕ) → setting.hex a ≡ setting.hex b → a ≡ b
one_byte_injective a b e = ap first_or_zero e

one_order-Agree : Agree setting entries_laws one_byte_injective one_order open_books.tree
unfolding contains expiration_of unix
one_order-Agree hash = elim (Bool-cases (8 == hash)) [
  | inl e ↦ rw e ((==_iff 8 hash).0 e, refl)
  | inr e ↦ rw e tt
]

-- The validation finds that the order expired.
abbrev expired_result : ValidationResults
expired_result = record {
  accepted = accepted_info ∷ [];
  rejected =
      record {
        order_hash = 8;
        signed_order = order_for 50 5;
        kind = zero_ex_validation;
        status = ro_expired;
      }
      ∷ [];
}

convert_validation_results-Agree_example :
    let (failed, p) =
      convert_validation_results_into_order_events setting 6000000000 [] expired_result one_order
        open_books in
    Agree setting entries_laws one_byte_injective p.orders p.books.tree
convert_validation_results-Agree_example =
    convert_validation_results-Agree setting entries_laws one_byte_injective 6000000000 []
      expired_result one_order open_books one_order-Agree

-- A block is added, another is removed, and the first is removed and added again.
abbrev header_at : ℕ → MiniHeader
header_at n = record { hash = n; parent = 0; number = n; timestamp = n; logs = [] }

abbrev some_events : List Event
some_events =
    record { type = added; block_header = header_at 7 }
    ∷ record { type = removed; block_header = header_at 6 }
    ∷ record { type = removed; block_header = header_at 7 }
    ∷ record { type = added; block_header = header_at 7 }
    ∷ []

sort_events-IsSingle_example :
    let m = sort_events some_events (record { to_add = []; to_remove = [] }) in
    IsSingle m
    × ((hash : ℕ) (before : Bool)
        → is_stored_after hash m before ≡ is_stored_by hash some_events before)
sort_events-IsSingle_example = sort_events-IsSingle some_events

abbrev no_keys : Slice → Iterator
no_keys slice = record { keys = []; error = none }

handle_order_expirations-expired_example :
    let (failed, (events, b')) =
      handle_order_expirations setting no_keys first_or_zero
        (λ hash. hash ∷ [])
        7000000000
        3
        (some 6000000000)
        []
        open_books in
    IsExpiry setting entries_laws no_keys first_or_zero
      (λ hash. hash ∷ [])
      7000000000
      []
      open_books.tree
      failed
      events
      b'.tree
handle_order_expirations-expired_example =
    handle_order_expirations-expired setting entries_laws no_keys first_or_zero (λ hash. hash ∷ [])
      7000000000 3 6000000000 [] open_books (omega arith) (omega arith)

-- Two times the token of address 7, in one asset data.
abbrev two_tokens : Bytes
two_tokens = 148 ∷ 207 ∷ 205 ∷ 215 ∷ some_token

abbrev pub no_contracts : Contracts
no_contracts = record {
  known_erc20 = λ address. false;
  known_erc721 = λ address. false;
  known_erc1155 = λ address. false;
  seen_count = λ address. 0;
}

remove_asset_data-add_asset_data_example :
    let (failed, c') =
      remove_asset_data byte_abi two_tokens (add_asset_data byte_abi two_tokens no_contracts).1 in
    (failed ≡ none) × (c'.seen_count 7 ≡ 0)
unfolding add_asset_data parts_of get_name info_of decode
remove_asset_data-add_asset_data_example =
    remove_asset_data-add_asset_data byte_abi two_tokens no_contracts 7 (omega arith) refl

abbrev IsFit : Bytes → Result MultiAssetData → Type 0
IsFit encoded (err e) = Unit
IsFit encoded (ok multi) = All (λ inner. length inner ≤ length encoded) multi.nested_asset_data

byte_abi-NestedShorter : NestedShorter byte_abi
byte_abi-NestedShorter encoded multi h = subst (IsFit encoded) h (omega arith, (omega arith, tt))

byte_abi-OwnErrors : OwnErrors byte_abi
byte_abi-OwnErrors = record {
  erc20_own = own_first;
  erc721_own = λ encoded. refl;
  erc1155_own = λ encoded. refl;
  static_call_own = λ encoded. refl;
  multi_own = λ encoded. refl;
}
  where
    own_first : (encoded : Bytes) → fails_for_fuel (byte_abi.unpack_erc20 encoded) ≡ false
    own_first [] = refl
    own_first (b ∷ bs) = refl

add_asset_data_total_example :
    ((add_asset_data byte_abi two_tokens no_contracts).0 ≢ some out_of_fuel)
    × (walk byte_abi add_contract 20 two_tokens no_contracts
        ≡ add_asset_data byte_abi two_tokens no_contracts)
add_asset_data_total_example =
    add_asset_data_total byte_abi byte_abi-OwnErrors byte_abi-NestedShorter 20 two_tokens
      no_contracts (omega arith)
