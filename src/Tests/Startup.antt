-- ===== src/Tests/Startup.antt =====
-- The settings of ServerStartupConfig.cpp, in an environment with one variable.
use sage_store.Prelude.{String, Option, some, none, ◌==◌, ◌≡◌, refl, leb, if◌then◌else◌}
use sage_store.Prelude.Decimal.{decimal, all_digits}
use sage_store.ModuleUtils.{is_digits}
use sage_store.Startup.{env_or_default_port, ushort_max}
use sage_store.Startup.Ports.{env_or_default_port-digits}

abbrev environment : String → String → Option String
environment value name = if name == "SAGESTORE_SERVER_PORT" then some value else none

env_or_default_port-digits_example :
    env_or_default_port (environment "08081") "SAGESTORE_SERVER_PORT" 8001
    ≡ (if leb (decimal "08081") ushort_max then decimal "08081" else 8001)
unfolding is_digits all_digits
env_or_default_port-digits_example =
    env_or_default_port-digits (environment "08081") "SAGESTORE_SERVER_PORT" "08081" 8001 refl refl

blanks_and_sign : env_or_default_port (environment " +80") "SAGESTORE_SERVER_PORT" 8001 ≡ 80
unfolding env_or_default_port
blanks_and_sign = refl

negative : env_or_default_port (environment "-80") "SAGESTORE_SERVER_PORT" 8001 ≡ 8001
unfolding env_or_default_port
negative = refl

rest_after_number : env_or_default_port (environment "80 ") "SAGESTORE_SERVER_PORT" 8001 ≡ 8001
unfolding env_or_default_port
rest_after_number = refl

no_port : env_or_default_port (environment "65617") "SAGESTORE_SERVER_PORT" 8001 ≡ 8001
unfolding env_or_default_port
no_port = refl
