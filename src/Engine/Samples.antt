-- ===== src/Engine/Samples.antt =====
-- A node, a daemon and a process environment for the tests.
use Prim.Native.String.{String}
use text.Mathlib.Text.{◌==◌}
use soroban_cron.Common.{
  ℕ, zero, suc, ◌+◌, ◌*◌, arith, refl, true, false, none, some, [], ◌∷◌, if◌then◌else◌,
}
use soroban_cron.Common.Int.{pos}
use soroban_cron.Engine.Errors.{Result}
use soroban_cron.Engine.Rpc.{RemoteTask, Json, Reply}
use soroban_cron.Engine.Config.{Process, no_file, assemble}
use soroban_cron.Engine.Pipeline.{Network, Machine, ExecutionPipeline}
use soroban_cron.Engine.Pipeline.Deadline.{IsTimed}
use soroban_cron.Engine.Discovery.{TaskDiscovery}
use soroban_cron.Engine.Main.{Strkey, Daemon, build_daemon}

-- A value is the key under which it was found.
abbrev pub keyed : Json String
keyed = record {
  get = λ v k. none;
  index = λ v k. k;
  as_u64 = λ v. some 7;
  as_str = λ v. if v == "status" then some "SUCCESS" else some "h1";
  to_string = λ v. v;
}

-- A node that does not answer its first n requests.
abbrev pub flaky_post : String → String → ℕ → Reply String × ℕ × ℕ
flaky_post method argument zero = (Reply.response true (Result.ok "body"), 100, 0)
flaky_post method argument (suc n) =
    (Reply.no_response (record { is_timeout = true; is_connect = false; text = "" }), 100, n)

abbrev pub flaky : Network String ℕ
flaky = record {
  json = keyed;
  post = flaky_post;
  sleep = λ seconds n. n;
  unix_time = λ n. 1_700_000_000;
  sign = λ key message. "00";
  hex_decode = λ text. some (1 ∷ []);
}

abbrev pub down : Network String ℕ
down = record flaky { post = λ method argument n. flaky_post method argument 1 }

abbrev pub pipeline : ExecutionPipeline
pipeline = record {
  keeper_address = "GA";
  signing_key_bytes = [];
  anchor_contract_address = "CA";
  confirmation_timeout = 60;
  retry_backoff_initial = 1;
  retry_backoff_max = 60;
  max_retries = 2;
}

abbrev pub task : RemoteTask
task = record {
  task_id_hex = "01";
  target_drip_list = "CB";
  execution_interval_ledgers = 100;
  next_allowed_execution = 1000;
  micro_reward_per_run = pos 5;
  designated_keeper = "GB";
}

abbrev pub fresh : ℕ → Machine ℕ
fresh n = record { net = n; actions = []; last_confirmed_ts = 0; in_flight = [] }

-- A discovery loop of keeper GA.
abbrev pub discovery : TaskDiscovery
discovery = record {
  anchor_contract_address = "CA";
  keeper_address = "GA";
  pipeline = pipeline;
  grace_monitor = record { keeper_address = "GA"; pipeline = pipeline };
  task_query_timeout = 10;
}

-- The same node, which always answers, with a clock in milliseconds.
abbrev pub timed : Network String ℕ
timed = record flaky {
  post = λ method argument n. (Reply.response true (Result.ok "body"), 100, n + 100);
  sleep = λ seconds n. n + seconds * 1000;
}

pub timed-IsTimed : IsTimed timed (λ n. n) 10_000
timed-IsTimed = record {
  posted = λ method argument n. refl;
  limited = λ method argument n. omega arith;
  slept = λ seconds n. refl;
}

-- Every variable is set to a text that is no number.
abbrev pub process : Process
process = record {
  var = λ key. some "x";
  default_exists = false;
  read_to_string = λ path. Result.ok "";
  parse_toml = λ text. Result.ok no_file;
  parse_u64 = λ text. none;
  parse_u32 = λ text. none;
  parse_u16 = λ text. none;
  is_blank = λ text. false;
  display = λ n. "";
}

-- Every secret decodes to one byte, and every public key is GA.
abbrev pub strkey : Strkey
strkey = record {
  from_string = λ text. Result.ok (7 ∷ []);
  verifying_key = λ key. key;
  to_string = λ bytes. "GA";
}

abbrev pub daemon : Daemon
daemon = build_daemon (assemble process no_file "x" "x" "x") "GA" (7 ∷ [])
