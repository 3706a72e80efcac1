-- ===== src/Financial/Store.antt =====
-- The rows that the financial service reads and writes, and its queries.
use orvex.Prelude.{
  ℕ, suc, String, Bool, true, false, ◌&&◌, Option, none, some, List, ◌∷◌, [], ◌++◌, ◌==◌, text_eq,
}
use orvex.Table.{find_first, update_first}

pub data AccountScope : Type 0 where
  agent company category recipient : AccountScope

pub data ReservationStatus : Type 0 where
  reserved committed released unknown : ReservationStatus

pub record Account (D : Type 0) : Type 0 where
  pub id : ℕ
  pub company_id : ℕ
  pub agent_id : Option ℕ
  pub scope : AccountScope
  pub scope_key : String
  pub asset : String
  pub network : Option String
  pub current_reserved : D
  pub current_committed : D
  pub limit_amount : Option D

pub record Reservation (D : Type 0) : Type 0 where
  pub id : ℕ
  pub company_id : ℕ
  pub agent_id : Option ℕ
  pub execution_request_id : Option ℕ
  pub financial_account_id : ℕ
  pub amount : D
  pub asset : String
  pub status : ReservationStatus
  pub committed_at : Option ℕ
  pub released_at : Option ℕ

pub record Store (D : Type 0) : Type 0 where
  pub accounts : List (Account D)
  pub reservations : List (Reservation D)
  pub next_id : ℕ

pub record AccountKey : Type 0 where
  pub company_id : ℕ
  pub agent_id : Option ℕ
  pub scope : AccountScope
  pub scope_key : String
  pub asset : String
  pub network : Option String

abbrev pub scope_eq : AccountScope → AccountScope → Bool
scope_eq agent agent = true
scope_eq company company = true
scope_eq category category = true
scope_eq recipient recipient = true
scope_eq _ _ = false

abbrev pub optional_eq : Option String → Option String → Bool
optional_eq none none = true
optional_eq (some s) (some t) = text_eq s t
optional_eq _ _ = false

module _ {D : Type 0} where
  -- The `where` of `ensureAccount`: the bucket, whose agent does not count.
  unfoldable pub is_bucket : AccountKey → Account D → Bool
  unfolding text_eq
  is_bucket key row =
      row.company_id == key.company_id
      && scope_eq row.scope key.scope
      && text_eq row.scope_key key.scope_key
      && text_eq row.asset key.asset
      && optional_eq row.network key.network

  abbrev pub has_account_id : ℕ → Account D → Bool
  has_account_id a row = row.id == a

  abbrev pub has_id : ℕ → Reservation D → Bool
  has_id r row = row.id == r

  -- `{ id: reservationId, companyId }`
  abbrev pub is_owned : ℕ → ℕ → Reservation D → Bool
  is_owned tenant r row = row.id == r && row.company_id == tenant

  abbrev pub account_row : Store D → ℕ → Option (Account D)
  account_row s a = find_first (has_account_id a) s.accounts

  abbrev pub owned_row : Store D → ℕ → ℕ → Option (Reservation D)
  owned_row s tenant r = find_first (is_owned tenant r) s.reservations

  abbrev pub add_account : Account D → Store D → Store D
  add_account row s = record s { accounts = s.accounts ++ row ∷ []; next_id = suc s.next_id }

  abbrev pub add_reservation : Reservation D → Store D → Store D
  add_reservation row s = record s {
    reservations = s.reservations ++ row ∷ [];
    next_id = suc s.next_id;
  }

  abbrev pub set_account : ℕ → (Account D → Account D) → Store D → Store D
  set_account a f s = record s { accounts = update_first (has_account_id a) f s.accounts }

  abbrev pub set_reservation : ℕ → (Reservation D → Reservation D) → Store D → Store D
  set_reservation r f s = record s { reservations = update_first (has_id r) f s.reservations }
