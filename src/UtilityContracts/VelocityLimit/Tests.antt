-- ===== src/UtilityContracts/VelocityLimit/Tests.antt =====
-- The theorems on the velocity limits at concrete withdrawals.
use utility_contracts.Base.{ℕ, pos, none, some, true, false, [], put}
use utility_contracts.UtilityContracts.VelocityLimit.Types.{State, Env, VelocityConfig}
use utility_contracts.UtilityContracts.VelocityLimit.Checks.{apply_override}
use utility_contracts.UtilityContracts.VelocityLimit.Admission.{Withdrawal}

-- At most 100 for a stream and 150 for all, at noon of the first day.
abbrev config : VelocityConfig
config = record {
  global_limit = pos 150;
  per_stream_limit = pos 100;
  is_enabled = true;
  admin_multisig = 1;
}

abbrev noon : Env
noon = record { now = 43_200; current_contract = 77 }

abbrev quiet : State
quiet = record {
  daily_outflow = λ m. none;
  global_outflow = none;
  velocity_config = some config;
  velocity_override = λ scope. none;
  events = [];
}

abbrev withdrawal : Withdrawal
withdrawal = record { env = noon; meter_id = 4; provider = 8; amount = pos 60 }

abbrev spent : State
spent = record quiet {
  daily_outflow =
      put 4
        (record {
          window_start = 0;
          total_outflow = pos 60;
          meter_id = 4;
          provider = 8;
          is_breached = false;
          last_anomaly_timestamp = 43_200;
        })
        quiet.daily_outflow;
  global_outflow = some (record {
    window_start = 0;
    total_outflow = pos 60;
    breached_meter_count = 0;
    global_breach = false;
    last_global_anomaly = 43_200;
  });
}

abbrev expiry : ℕ
expiry = 50_000

-- An override of meter 4 until time 50000.
abbrev lifted : State
lifted = apply_override noon 1 4 expiry 6 quiet
