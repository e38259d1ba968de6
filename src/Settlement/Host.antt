-- ===== src/Settlement/Host.antt =====
-- What the settlement contract sees of the chain, its own storage (storage.rs, reentrancy.rs) and the
-- contracts that it calls: a token and a price oracle, which are parameters.
use utility_contracts.Base.{
  ℕ, ℤ, Bool, true, false, List, Option, ok, err, Call, ◌>>=◌, ◌>>◌, gets, modify, panic_if, pure,
  not, some, none, ◌≡◌, ◌≢◌, ◌+ℤ◌, ◌-ℤ◌,
}

-- `OraclePrice` of lib.rs.
pub record OraclePrice : Type 0 where
  pub price : ℤ
  pub decimals : ℕ
  pub last_updated : ℕ

pub data SettlementError : Type 0 where
  invalid_fee_rate insufficient_balance slippage_exceeded reentrant_call oracle_stale :
      SettlementError

-- Why a call aborts: an error of the contract, a failed `require_auth`, a failed call of another
-- contract, or an `expect` on a checked operation.
pub data Panic : Type 0 where
  contract : SettlementError → Panic
  not_authorized call_failed arithmetic : Panic

-- The event `StaleFbk`. The event `SlpSlipp` is published only before a panic, which undoes it.
pub data Event : Type 0 where
  stale_fallback : (now last_updated : ℕ) → ℤ → Event

-- The invocation: the ledger's clock and the addresses that authorized the call.
pub record Env : Type 0 where
  pub now : ℕ
  pub authorized : ℕ → Bool

-- The contracts outside, over the state `W` that they keep. A call is told whether the contract's
-- lock is held, since a callback could find that out; `none` is a call that panics.
pub record Outside (W : Type 0) : Type 0 where
  pub transfer : (locked : Bool) (token from to : ℕ) → ℤ → W → Option W
  pub get_price : (locked : Bool) (oracle : ℕ) → W → Option OraclePrice
  pub balance : (token who : ℕ) → W → ℤ

-- What a token's documentation promises of a transfer that succeeds.
pub record IsToken {W : Type 0} (out : Outside W) : Type 0 where
  pub debits :
      (l : Bool) (k from to : ℕ) (x : ℤ) (w w' : W)
      → out.transfer l k from to x w ≡ some w'
      → from ≢ to
      → out.balance k from w' ≡ out.balance k from w -ℤ x
  pub credits :
      (l : Bool) (k from to : ℕ) (x : ℤ) (w w' : W)
      → out.transfer l k from to x w ≡ some w'
      → from ≢ to
      → out.balance k to w' ≡ out.balance k to w +ℤ x
  pub keeps :
      (l : Bool) (k from to who : ℕ) (x : ℤ) (w w' : W)
      → out.transfer l k from to x w ≡ some w'
      → who ≢ from
      → who ≢ to
      → out.balance k who w' ≡ out.balance k who w

-- The contract's temporary storage, what it published, and the state of the contracts outside.
pub record State (W : Type 0) : Type 0 where
  pub lock : Bool
  pub outside : W
  pub events : List Event

abbrev pub Action : Type 0 → Type 0 → Type 0
Action W A = Call (State W) Panic A

module _ {W : Type 0} where
  -- `require_auth`.
  abbrev pub require_auth : Env → ℕ → Action W (Unit {0})
  require_auth env who = panic_if (not (env.authorized who)) not_authorized

  -- `token::Client::transfer`.
  abbrev pub call_transfer : Outside W → (token from to : ℕ) → ℤ → Action W (Unit {0})
  call_transfer out token from to amount s =
      elim (out.transfer s.lock token from to amount s.outside) [
        | none ↦ err call_failed
        | some w ↦ ok (tt, record s { outside = w })
      ]

  -- `PriceOracleClient::get_price`.
  abbrev pub call_get_price : Outside W → (oracle : ℕ) → Action W OraclePrice
  call_get_price out oracle s = elim (out.get_price s.lock oracle s.outside) [
    | none ↦ err call_failed
    | some p ↦ ok (p, s)
  ]

  -- `ReentrancyGuard::new`.
  unfoldable pub acquire : Action W (Unit {0})
  acquire = do
    panic_if (← gets (λ s. s.lock)) (contract reentrant_call)
    modify (λ s. record s { lock = true })

  -- `ReentrancyGuard::drop`, at a normal return.
  unfoldable pub release : Action W (Unit {0})
  release = modify (λ s. record s { lock = false })

  abbrev pub guarded : {A : Type 0} → Action W A → Action W A
  guarded body = do acquire; result ← body; release; pure result
