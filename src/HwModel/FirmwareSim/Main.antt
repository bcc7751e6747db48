-- ===== src/HwModel/FirmwareSim/Main.antt =====
-- sim/hw-model/src/firmware_sim.cpp: main around the command loop. It opens the page of a hw-model
-- that may not have started yet, waits for READY, and runs the loop until a signal.
use deepspan.Common.{
  ℕ, ◌^◌, ◌<◌, ◌≡◌, refl, ap, ◌∙◌, Bool, if◌then◌else◌, Option, none, some, List, [], ◌∷◌, ◌++◌,
  arith,
}
use deepspan.Server.StrMap.{Str}
use deepspan.Server.Decimal.{to_decimal}
use deepspan.Plugin.Object.{bytes_of}
use deepspan.HwModel.Args.{
  strip, stoul, to_uint32, same, End, exits, aborts, strip-append, to_uint32-stoul-to_decimal,
}
use deepspan.HwModel.FirmwareSim.{open_loop}

pub record FwOptions : Type 0 where
  pub shm_name : Str
  pub interval_ms : ℕ

abbrev pub fw_defaults : FwOptions
fw_defaults = record { shm_name = bytes_of "/deepspan-sim"; interval_ms = 1000 }

pub data FwOpt : Type 0 where
  fw_name fw_interval : Str → FwOpt
  fw_help fw_other : FwOpt

unfoldable pub fw_plain : Str → FwOpt
fw_plain arg =
    if same arg (bytes_of "-h")
    then fw_help
    else (if same arg (bytes_of "--help") then fw_help else fw_other)

unfoldable pub interval_or_plain : Str → Option Str → FwOpt
interval_or_plain arg none = fw_plain arg
interval_or_plain arg (some v) = fw_interval v

unfoldable pub fw_name_or_rest : Str → Option Str → FwOpt
fw_name_or_rest arg none = interval_or_plain arg (strip (bytes_of "--interval-ms=") arg)
fw_name_or_rest arg (some v) = fw_name v

unfoldable pub fw_opt_of : Str → FwOpt
fw_opt_of arg = fw_name_or_rest arg (strip (bytes_of "--shm-name=") arg)

pub data FwParsed : Type 0 where
  fw_runs : FwOptions → FwParsed
  fw_helps fw_throws : FwParsed

-- An argument that is no option is passed over.
unfoldable pub fw_parse : FwOptions → List Str → FwParsed
fw_parse o [] = fw_runs o
fw_parse o (arg ∷ rest) = elim (fw_opt_of arg) [
  | fw_name v ↦ fw_parse (record o { shm_name = v }) rest
  | fw_interval v ↦ elim (to_uint32 (stoul v)) [
    | none ↦ fw_throws
    | some n ↦ fw_parse (record o { interval_ms = n }) rest
  ]
  | fw_help ↦ fw_helps
  | fw_other ↦ fw_parse o rest
]

abbrev pub open_attempts : ℕ
open_attempts = 50

-- `opens i` is whether attempt `i` of shm_open finds the page, `going i` whether no signal has come
-- by then, and `maps` whether mmap succeeds. The loop that follows ends with a signal.
unfoldable pub fw_main : (ℕ → Bool) → (ℕ → Bool) → Bool → FwParsed → End
fw_main opens going maps fw_helps = exits 0
fw_main opens going maps fw_throws = aborts
fw_main opens going maps (fw_runs o) =
    if open_loop opens going open_attempts 0 then (if maps then exits 0 else exits 1) else exits 1

abbrev pub fw_args_of : FwOptions → List Str
fw_args_of o =
    (bytes_of "--shm-name=" ++ o.shm_name)
    ∷ (bytes_of "--interval-ms=" ++ to_decimal o.interval_ms)
    ∷ []

fw_opt_of-name : (v : Str) → fw_opt_of (bytes_of "--shm-name=" ++ v) ≡ fw_name v
unfolding fw_opt_of fw_name_or_rest
fw_opt_of-name v =
    ap (fw_name_or_rest (bytes_of "--shm-name=" ++ v)) (strip-append (bytes_of "--shm-name=") v)

fw_opt_of-interval : (v : Str) → fw_opt_of (bytes_of "--interval-ms=" ++ v) ≡ fw_interval v
unfolding fw_opt_of fw_name_or_rest interval_or_plain
fw_opt_of-interval v =
    let e : strip (bytes_of "--shm-name=") (bytes_of "--interval-ms=" ++ v) ≡ none =
      unfold strip in refl in
    ap (fw_name_or_rest (bytes_of "--interval-ms=" ++ v)) e
    ∙ ap (interval_or_plain (bytes_of "--interval-ms=" ++ v))
        (strip-append (bytes_of "--interval-ms=") v)

-- Both options are read as they were written, whatever stood for them before.
pub fw_parse-args_of :
    (o d : FwOptions) → o.interval_ms < 2 ^ 32 → fw_parse d (fw_args_of o) ≡ fw_runs o
unfolding fw_parse
fw_parse-args_of o d h = ground (
  arith,
  fw_opt_of-name o.shm_name,
  fw_opt_of-interval (to_decimal o.interval_ms),
  to_uint32-stoul-to_decimal o.interval_ms h,
)
