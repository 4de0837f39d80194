-- ===== src/Engine/Build.antt =====
-- the-engine/build.rs: the build stops for a WASM target. A panic is `err` with its message.
use Prim.Native.String.{String}
use text.Mathlib.Text.{◌==◌}
use mathlib.Core.Option.{get_or}
use soroban_cron.Common.{◌≡◌, refl, Option, some, if◌then◌else◌}
use soroban_cron.Engine.Errors.{Result}

unfoldable build_guard : (var : String → Option String) → Result (Unit {0}) String
build_guard var =
    let target = get_or (var "CARGO_CFG_TARGET_ARCH") "" in
    if target == "wasm32"
    then Result.err
        "the-engine cannot be compiled for wasm32. It is a native Tokio daemon. Use `cargo build --package the-anchor` for the WASM contract."
    else Result.ok tt

build_guard-native : build_guard (λ key. some "x86_64") ≡ Result.ok tt
unfolding build_guard
build_guard-native = refl
