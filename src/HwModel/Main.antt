-- ===== src/HwModel/Main.antt =====
-- sim/hw-model/src/main.cpp: the process of the hw-model. It sets no handler, so that the server's
-- default one answers; a signal stops the server.
use deepspan.Common.{
  ℕ, ◌^◌, ◌<◌, ◌≡◌, refl, ap, ◌∙◌, Bool, true, false, if◌then◌else◌, Option, none, some, List, [],
  ◌∷◌, ◌++◌, arith,
}
use deepspan.Server.StrMap.{Str, cmp}
use deepspan.Server.Decimal.{to_decimal}
use deepspan.Plugin.Object.{bytes_of}
use deepspan.Shm.{Page}
use deepspan.HwModel.{HwServer, check_running}
use deepspan.HwModel.Args.{
  strip, stoul, to_uint32, same, End, exits, aborts, strip-append, to_uint32-stoul-to_decimal,
}

pub record HwModelConfig : Type 0 where
  pub shm_name : Str
  pub latency_us : ℕ
  pub auto_irq : Bool

abbrev pub default_config : HwModelConfig
default_config = record { shm_name = bytes_of "/deepspan_hwip_0"; latency_us = 0; auto_irq = true }

pub data Opt : Type 0 where
  name_opt latency_opt : Str → Opt
  no_irq_opt help_opt unknown_opt : Opt

-- The tests after those of the two prefixes.
unfoldable pub plain_opt : Str → Opt
plain_opt arg =
    if same arg (bytes_of "--no-auto-irq")
    then no_irq_opt
    else (if same arg (bytes_of "-h")
        then help_opt
        else (if same arg (bytes_of "--help") then help_opt else unknown_opt))

unfoldable pub latency_or_plain : Str → Option Str → Opt
latency_or_plain arg none = plain_opt arg
latency_or_plain arg (some v) = latency_opt v

unfoldable pub name_or_rest : Str → Option Str → Opt
name_or_rest arg none = latency_or_plain arg (strip (bytes_of "--latency-us=") arg)
name_or_rest arg (some v) = name_opt v

unfoldable pub opt_of : Str → Opt
opt_of arg = name_or_rest arg (strip (bytes_of "--shm-name=") arg)

pub data Parsed : Type 0 where
  runs : HwModelConfig → Parsed
  helps throws : Parsed
  unknown : Str → Parsed

unfoldable pub parse : HwModelConfig → List Str → Parsed
parse cfg [] = runs cfg
parse cfg (arg ∷ rest) = elim (opt_of arg) [
  | name_opt v ↦ parse (record cfg { shm_name = v }) rest
  | latency_opt v ↦ elim (to_uint32 (stoul v)) [
    | none ↦ throws
    | some n ↦ parse (record cfg { latency_us = n }) rest
  ]
  | no_irq_opt ↦ parse (record cfg { auto_irq = false }) rest
  | help_opt ↦ helps
  | unknown_opt ↦ unknown arg
]

-- `made` is whether init() succeeds; run() comes back when a signal has stopped the server.
unfoldable pub main_of : Bool → Parsed → End
main_of made (runs cfg) = if made then exits 0 else exits 1
main_of made helps = exits 0
main_of made (unknown arg) = exits 1
main_of made throws = aborts

-- The server that run() starts on its page.
unfoldable pub run_server : HwModelConfig → Page → HwServer
run_server cfg p = record {
  pc = check_running;
  running = true;
  auto_irq = cfg.auto_irq;
  page = p;
  cmd_count = 0;
  irq_events = 0;
}

-- The command line that asks for a configuration.
abbrev irq_args : Bool → List Str
irq_args true = []
irq_args false = bytes_of "--no-auto-irq" ∷ []

abbrev pub args_of : HwModelConfig → List Str
args_of cfg =
    (bytes_of "--shm-name=" ++ cfg.shm_name)
    ∷ (bytes_of "--latency-us=" ++ to_decimal cfg.latency_us)
    ∷ irq_args cfg.auto_irq

opt_of-name : (v : Str) → opt_of (bytes_of "--shm-name=" ++ v) ≡ name_opt v
unfolding opt_of name_or_rest
opt_of-name v =
    ap (name_or_rest (bytes_of "--shm-name=" ++ v)) (strip-append (bytes_of "--shm-name=") v)

opt_of-latency : (v : Str) → opt_of (bytes_of "--latency-us=" ++ v) ≡ latency_opt v
unfolding opt_of name_or_rest latency_or_plain
opt_of-latency v =
    let e : strip (bytes_of "--shm-name=") (bytes_of "--latency-us=" ++ v) ≡ none =
      unfold strip in refl in
    ap (name_or_rest (bytes_of "--latency-us=" ++ v)) e
    ∙ ap (latency_or_plain (bytes_of "--latency-us=" ++ v))
        (strip-append (bytes_of "--latency-us=") v)

parse-name :
    (cfg : HwModelConfig) (v : Str) (rest : List Str)
    → parse cfg ((bytes_of "--shm-name=" ++ v) ∷ rest) ≡ parse (record cfg { shm_name = v }) rest
unfolding parse
parse-name cfg v rest = ground (arith, opt_of-name v)

parse-latency :
    (cfg : HwModelConfig) (n : ℕ) (rest : List Str)
    → n < 2 ^ 32
    → parse cfg ((bytes_of "--latency-us=" ++ to_decimal n) ∷ rest)
      ≡ parse (record cfg { latency_us = n }) rest
unfolding parse
parse-latency cfg n rest h =
    ground (arith, opt_of-latency (to_decimal n), to_uint32-stoul-to_decimal n h)

parse-irq_args :
    (cfg : HwModelConfig) (on : Bool)
    → cfg.auto_irq ≡ true
    → parse cfg (irq_args on) ≡ runs (record cfg { auto_irq = on })
unfolding parse opt_of name_or_rest latency_or_plain plain_opt strip cmp
parse-irq_args cfg true e = ap (λ (on : Bool). runs (record cfg { auto_irq = on })) e
parse-irq_args cfg false e = refl

-- Every configuration with a latency that is a uint32_t can be asked for on the command line, and is
-- what the server is then made with.
pub parse-args_of :
    (cfg : HwModelConfig) → cfg.latency_us < 2 ^ 32 → parse default_config (args_of cfg) ≡ runs cfg
parse-args_of cfg h =
    parse-name default_config cfg.shm_name _
    ∙ parse-latency (record default_config { shm_name = cfg.shm_name }) cfg.latency_us _ h
    ∙ parse-irq_args (record cfg { auto_irq = true }) cfg.auto_irq refl
