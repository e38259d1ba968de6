-- ===== src/ResourceToken/Ledger.antt =====
-- The contract as a ledger: who holds how much, and how much there is. Storage, administrators, operators,
-- nonces and migrations are forgotten.
use utility_contracts.Base.{ℕ, ◌≡◌, ℤ, pos, ◌+ℤ◌, ◌-ℤ◌, ◌≤ℤ◌, if◌then◌else◌, ◌==◌}
use utility_contracts.ResourceToken.Storage.{State, max_supply}
use utility_contracts.ResourceToken.Supply.{supply, balance_in}

pub record Ledger : Type 0 where
  pub holds : ℕ → ℤ
  pub issued : ℤ

abbrev pub empty_ledger : Ledger
empty_ledger = record { holds = λ who. pos 0; issued = pos 0 }

-- What a ledger may do: issue an amount to one holder, within the cap, or take from a holder no more than
-- it holds.
pub data Move (l l' : Ledger) : Type 0 where
  issue :
      (to : ℕ) (amount : ℤ)
      → pos 1 ≤ℤ amount
      → l'.issued ≡ l.issued +ℤ amount
      → l'.issued ≤ℤ pos max_supply
      → ((who : ℕ) → l'.holds who ≡ (if who == to then l.holds to +ℤ amount else l.holds who))
      → Move l l'
  redeem :
      (from : ℕ) (amount : ℤ)
      → pos 1 ≤ℤ amount
      → amount ≤ℤ l.holds from
      → l'.issued ≡ l.issued -ℤ amount
      → ((who : ℕ) → l'.holds who ≡ (if who == from then l.holds from -ℤ amount else l.holds who))
      → Move l l'

-- Zero or more moves from the empty ledger.
pub data Ledgers : Ledger → Type 0 where
  nothing : Ledgers empty_ledger
  also : {l l' : Ledger} → Ledgers l → Move l l' → Ledgers l'

abbrev pub view : State → Ledger
view s = record { holds = balance_in s; issued = supply s }
