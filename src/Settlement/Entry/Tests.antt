-- ===== src/Settlement/Entry/Tests.antt =====
-- The theorems on the settlement contract at concrete inputs. The token is a ledger whose balances are
-- a function, the oracle quotes 5.0 as of time 1000.
use utility_contracts.Base.{
  ℕ, ◌-◌, ◌≡◌, refl, ℤ, pos, ◌+ℤ◌, ◌-ℤ◌, some, none, ok, arith, true, false, inl, inr, unwrap_or,
  ◌==◌, if◌then◌else◌, [], ap,
}
use utility_contracts.Settlement.Host.{Outside, IsToken, Env, State}
use utility_contracts.Settlement.Entry.{settle, finalize_settlement, SettlementArgs}
use utility_contracts.Settlement.Entry.Locking.{calls_locked, entry_unlocks}
use utility_contracts.Settlement.Entry.Payment.{settle_completes, settle_pays, Paid}

-- The balances of every token, by token and address.
abbrev Ledger : Type 0
Ledger = ℕ → ℕ → ℤ

abbrev moved : (token from to : ℕ) → ℤ → Ledger → Ledger
moved token from to x ledger k who =
    if k == token
    then if who == from
      then ledger k who -ℤ x
      else if who == to
      then ledger k who +ℤ x
      else ledger k who
    else ledger k who

abbrev chain : Outside Ledger
chain = record {
  transfer = λ locked token from to x ledger. some (moved token from to x ledger);
  get_price = λ locked oracle ledger.
      some record { price = pos 50_000_000; decimals = 7; last_updated = 1000 };
  balance = λ token who ledger. ledger token who;
}

same_world : {w w' : Ledger} → some w ≡ some w' → w ≡ w'
same_world {w} h = ap (unwrap_or w) h

chain-IsToken : IsToken chain
chain-IsToken = record {
  debits = λ l k from to x w w' h ne. rw⁻¹ (same_world h) (ground arith);
  credits = λ l k from to x w w' h ne. rw⁻¹ (same_world h) (ground arith);
  keeps = λ l k from to who x w w' h n1 n2. rw⁻¹ (same_world h) (ground arith);
}

-- Address 1 pays, address 2 is paid, address 3 collects the fee; 1 holds 1000 of token 9.
abbrev funded : State Ledger
funded = record {
  lock = false;
  outside = λ token who. if token == 9 then (if who == 1 then pos 1000 else pos 0) else pos 0;
  events = [];
}

abbrev signed : Env
signed = record { now = 1100; authorized = λ who. true }

abbrev after_fee : Ledger
after_fee = moved 9 1 3 (pos 3) funded.outside

abbrev after_net : Ledger
after_net = moved 9 1 2 (pos 997) after_fee

settled :
    settle chain signed 9 1 2 3 (pos 1000) 25 funded
    ≡ ok ((pos 997, pos 3), record funded { outside = after_net })
settled =
    settle_completes chain signed 9 1 2 3 1000 25 funded after_fee after_net (omega arith)
      (omega arith) (omega arith) (omega arith) refl refl (inr ((omega arith), refl)) refl

settle_completes_example :
    settle chain signed 9 1 2 3 (pos 1000) 25 funded
    ≡ ok ((pos 997, pos 3), record funded { outside = after_net })
settle_completes_example =
    settle_completes chain signed 9 1 2 3 1000 25 funded after_fee after_net (omega arith)
      (omega arith) (omega arith) (omega arith) refl refl (inr ((omega arith), refl)) refl

abbrev paid : ℤ × ℤ
paid = (pos 997, pos 3)

settle_pays_example :
    (paid ≡ (pos (1000 - 3), pos 3)) × Paid chain 9 1 2 3 1000 3 funded.outside after_net
settle_pays_example =
    settle_pays chain signed 9 1 2 3 1000 25 funded (record funded { outside = after_net })
      chain-IsToken (omega arith) (omega arith) (omega arith) (omega arith) (omega arith)
      (omega arith) settled

abbrev args : SettlementArgs
args = record { token_address = 9; volume = pos 200; recipient = 2; min_expected_amount = none }

abbrev locked : State Ledger
locked = record funded { lock = true }

-- A world whose contracts refuse every call that is made without the lock.
abbrev wary : Outside Ledger
wary = record chain {
  transfer =
      λ locked token from to x ledger. if locked then some (moved token from to x ledger) else none;
}

calls_locked_example :
    (settle chain signed 9 1 2 3 (pos 1000) 25 funded
      ≡ settle wary signed 9 1 2 3 (pos 1000) 25 funded)
    × (finalize_settlement chain signed 8 1 3 args 25 funded
        ≡ finalize_settlement wary signed 8 1 3 args 25 funded)
calls_locked_example =
    calls_locked chain wary signed 8 9 1 2 3 (pos 1000) args 25 funded
      record { transfers = λ k f t x w. refl; prices = λ o w. refl }

entry_unlocks_example : (funded.lock ≡ false) × (false ≡ false)
entry_unlocks_example =
    entry_unlocks chain signed 8 9 1 2 3 (pos 1000) args 25 funded
      (record funded { outside = after_net }) (pos 997, pos 3)
      (record { net_amount = pos 0; fee_amount = pos 0; rate_used = pos 0 }) (inl settled)
