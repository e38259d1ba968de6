-- ===== src/Settlement/Entry/Payment.antt =====
-- What a settlement pays, and to whom.
use mathlib.Core.Path.{subst}
use utility_contracts.Base.{
  ℕ, ◌+◌, ◌*◌, ◌/◌, ◌-◌, ◌≤◌, ◌<◌, ◌≡◌, ◌≢◌, ℤ, pos, ◌+ℤ◌, ◌-ℤ◌, some, ok, arith, i128_half,
  int_laws, ◌⊎◌, ◌==◌, Bool, pure, ◌>>◌, Option-cases, Result-cases, sym, ◌∙◌, Bool-cases, inl, inr,
  saturating_sub_pos, true, false, if◌then◌else◌,
}
use utility_contracts.Settlement.Host.{
  Outside, IsToken, Env, State, call_transfer, acquire, release,
}
use utility_contracts.Settlement.Fees.{
  collect_fee, compute_fee_lem, compute_fee-lt, max_fee_rate_bps, Fits,
}
use utility_contracts.Settlement.Entry.{settle, pay}

-- The fee of a positive amount as a number.
abbrev pub fee_of : ℕ → ℕ → ℕ
fee_of amount rate_bps = (amount * rate_bps + 5000) / 10000

module _ {W : Type 0} (out : Outside W) where
  -- The balances of one token in two states of the world: the payer is down by `total`, of which the
  -- collector has `fee` and the payee the rest.
  pub record Paid (token payer payee fee_collector total fee : ℕ) (w w' : W) : Type 0 where
    pub payer_down : out.balance token payer w' ≡ out.balance token payer w -ℤ pos total
    pub collector_up :
        out.balance token fee_collector w' ≡ out.balance token fee_collector w +ℤ pos fee
    pub payee_up : out.balance token payee w' ≡ out.balance token payee w +ℤ pos (total - fee)
    pub others_same :
        (who : ℕ)
        → who ≢ payer
        → who ≢ payee
        → who ≢ fee_collector
        → out.balance token who w' ≡ out.balance token who w

-- A transfer that is left out when nothing is due moves the same amount, zero.
transfer_or_skip :
    {W : Type 0} (out : Outside W) (locked : Bool) (k from to f : ℕ) (w w' : W)
    → IsToken out
    → from ≢ to
    → ((f ≡ 0) × (w' ≡ w)) ⊎ ((f ≢ 0) × (out.transfer locked k from to (pos f) w ≡ some w'))
    → (out.balance k from w' ≡ out.balance k from w -ℤ pos f)
      × (out.balance k to w' ≡ out.balance k to w +ℤ pos f)
      × ((who : ℕ) → who ≢ from → who ≢ to → out.balance k who w' ≡ out.balance k who w)
transfer_or_skip out locked k from to f w w' laws ne (inl (none_due, same)) = (
  rw (none_due, same) (omega int_laws),
  rw (none_due, same) (omega int_laws),
  λ who n1 n2. rw same,
)
transfer_or_skip out locked k from to f w w' laws ne (inr (due, moved)) = (
  laws.debits locked k from to (pos f) w w' moved ne,
  laws.credits locked k from to (pos f) w w' moved ne,
  λ who n1 n2. laws.keeps locked k from to who (pos f) w w' moved n1 n2,
)

module _ {W : Type 0} (out : Outside W) (env : Env)
    (token payer payee fee_collector amount rate_bps : ℕ) where
  abbrev fee : ℕ
  fee = fee_of amount rate_bps

  collect_fee_lem :
      (s : State W)
      → Fits amount rate_bps
      → collect_fee out token payer fee_collector (pos amount) rate_bps s
        ≡ (if fee == 0
              then pure (pos 0)
              else (call_transfer out token payer fee_collector (pos fee) >> pure (pos fee)))
            s
  unfolding collect_fee
  collect_fee_lem s fits = rw (compute_fee_lem amount rate_bps fits) (ground arith)

  -- The fee has been paid, or there was none to pay.
  abbrev FeePaid : Bool → W → W → Type 0
  FeePaid locked w w' =
      ((fee ≡ 0) × (w' ≡ w))
      ⊎ ((fee ≢ 0) × (out.transfer locked token payer fee_collector (pos fee) w ≡ some w'))

  abbrev NetPaid : Bool → W → W → Type 0
  NetPaid locked w w' = out.transfer locked token payer payee (pos (amount - fee)) w ≡ some w'

  pay_steps :
      (s s' : State W) {result : ℤ × ℤ}
      → Fits amount rate_bps
      → amount < i128_half
      → 0 < amount
      → rate_bps ≤ max_fee_rate_bps
      → pay out env token payer payee fee_collector (pos amount) rate_bps s ≡ ok (result, s')
      → (result ≡ (pos (amount - fee), pos fee))
        × (w : W) × FeePaid s.lock s.outside w
        × NetPaid s.lock w s'.outside
  pay_steps s s' fits small positive rate h =
      let fee-lt : fee < amount = compute_fee-lt amount rate_bps positive rate in
      let net = saturating_sub_pos amount fee (omega arith) small in
      let collected = collect_fee_lem s fits in
      elim (Bool-cases (fee == 0)) [
        | inl free ↦ (
          ground (arith, net, collected),
          s.outside,
          inl (ground arith),
          ground (arith, net, collected),
        )
        | inr due ↦
            elim (Option-cases
              (out.transfer s.lock token payer fee_collector (pos fee) s.outside)) [
                | inl failed ↦ absurd (ground (arith, net, collected))
                | inr (w, taken) ↦ (
                  ground (arith, net, collected),
                  w,
                  inr (ground arith, taken),
                  ground (arith, net, collected),
                )
              ]
      ]

  collect_fee_completes :
      (s : State W) (w : W)
      → Fits amount rate_bps
      → FeePaid s.lock s.outside w
      → collect_fee out token payer fee_collector (pos amount) rate_bps s
        ≡ ok (pos fee, record s { outside = w })
  collect_fee_completes s w fits paid =
      rw (collect_fee_lem s fits)
        (elim (Bool-cases (fee == 0)) [ inl e ↦ rw e (ground arith) | inr e ↦ rw e (ground arith) ])

  -- With the lock free, a rate within the cap, the payer's authorization, a positive amount whose
  -- product with the rate fits and two transfers that succeed, a settlement returns the net amount
  -- and the fee, and leaves the world that the transfers made.
  pub settle_completes :
      (s : State W) (w w' : W)
      → Fits amount rate_bps
      → amount < i128_half
      → 0 < amount
      → rate_bps ≤ max_fee_rate_bps
      → s.lock ≡ false
      → env.authorized payer ≡ true
      → FeePaid true s.outside w
      → NetPaid true w w'
      → settle out env token payer payee fee_collector (pos amount) rate_bps s
        ≡ ok ((pos (amount - fee), pos fee), record s { outside = w' })
  unfolding settle acquire release
  settle_completes s w w' fits small positive rate free auth first second =
      let fee-lt : fee < amount = compute_fee-lt amount rate_bps positive rate in
      let net = saturating_sub_pos amount fee (omega arith) small in
      let held : State W = record s { lock = true } in
      let collected = collect_fee_completes held w fits first in ground (arith, net, collected)

  -- The two transfers, as the token's documentation describes them.
  transfers-Paid :
      (locked : Bool) (w0 w w' : W)
      → IsToken out
      → fee ≤ amount
      → payer ≢ payee
      → payer ≢ fee_collector
      → payee ≢ fee_collector
      → FeePaid locked w0 w
      → NetPaid locked w w'
      → Paid out token payer payee fee_collector amount fee w0 w'
  transfers-Paid locked w0 w w' laws le ne1 ne2 ne3 first second =
      let (down, up, same) =
        transfer_or_skip out locked token payer fee_collector fee w0 w laws ne2 first in
      let net : ℤ = pos (amount - fee) in
      let down' = laws.debits locked token payer payee net w w' second ne1 in
      let up' = laws.credits locked token payer payee net w w' second ne1 in
      let kept = laws.keeps locked token payer payee in
      record {
        payer_down = rw (down', down) (omega int_laws);
        collector_up = rw (kept fee_collector net w w' second (ground arith) (ground arith), up);
        payee_up = rw (up', same payee (ground arith) ne3);
        others_same = λ who n1 n2 n3. rw (kept who net w w' second n1 n2, same who n1 n3);
      }

  -- With a token that moves what it is told to, three different parties and an amount whose product
  -- with the rate fits, a settlement of a positive amount that succeeds returns the rounded fee and
  -- the rest; the payer is down by the amount, the collector is up by the fee, the payee by the
  -- rest, and no other balance of the token changes.
  pub settle_pays :
      (s s' : State W) {result : ℤ × ℤ}
      → IsToken out
      → Fits amount rate_bps
      → amount < i128_half
      → 0 < amount
      → payer ≢ payee
      → payer ≢ fee_collector
      → payee ≢ fee_collector
      → settle out env token payer payee fee_collector (pos amount) rate_bps s ≡ ok (result, s')
      → (result ≡ (pos (amount - fee), pos fee))
        × Paid out token payer payee fee_collector amount fee s.outside s'.outside
  unfolding settle acquire release
  settle_pays s s' {result} laws fits small positive ne1 ne2 ne3 h =
      let held : State W = record s { lock = true } in
      let rate : rate_bps ≤ max_fee_rate_bps = ground arith in
      let fee-lt : fee < amount = compute_fee-lt amount rate_bps positive rate in
      elim (Result-cases (pay out env token payer payee fee_collector (pos amount) rate_bps held)) [
        | inl (e, failed) ↦ absurd (ground (arith, failed))
        | inr (r, t, done) ↦
            let (same, w, first, second) = pay_steps held t fits small positive rate done in
            let ends : (r ≡ result) × (t.outside ≡ s'.outside) = ground (arith, done) in
            (
              sym ends.0 ∙ same,
              subst (Paid out token payer payee fee_collector amount fee s.outside) ends.1 (
                  transfers-Paid true s.outside w t.outside laws (omega arith) ne1 ne2 ne3 first
                    second),
            )
      ]
