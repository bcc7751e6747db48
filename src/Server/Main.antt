-- ===== src/Server/Main.antt =====
-- server/src/main.cpp: the arguments, the loading of the plugins, and the exit code. What dlopen
-- returns for a path, and whether gRPC starts, are given.
use deepspan.Common.{
  ℕ, ◌≡◌, sym, ap, ◌∙◌, Bool, true, false, if◌then◌else◌, Option, List, [], ◌∷◌, ◌++◌,
}
use mathlib.Core.List.{append_assoc, append-nil}
use deepspan.Server.StrMap.{Str, cmp, equal}
use deepspan.Server.Plugins.{Handles, load_plugin}

pub record Options : Type 0 where
  pub addr : Str
  pub plugin_paths : List Str

-- "0.0.0.0:8080"
abbrev pub default_options : Options
default_options = record {
  addr = 48 ∷ 46 ∷ 48 ∷ 46 ∷ 48 ∷ 46 ∷ 48 ∷ 58 ∷ 56 ∷ 48 ∷ 56 ∷ 48 ∷ [];
  plugin_paths = [];
}

-- "--addr", "--hwip-plugin", "--help" and "-h".
abbrev pub addr_arg : Str
addr_arg = 45 ∷ 45 ∷ 97 ∷ 100 ∷ 100 ∷ 114 ∷ []

abbrev pub plugin_arg : Str
plugin_arg = 45 ∷ 45 ∷ 104 ∷ 119 ∷ 105 ∷ 112 ∷ 45 ∷ 112 ∷ 108 ∷ 117 ∷ 103 ∷ 105 ∷ 110 ∷ []

abbrev pub help_arg : Str
help_arg = 45 ∷ 45 ∷ 104 ∷ 101 ∷ 108 ∷ 112 ∷ []

abbrev pub short_help_arg : Str
short_help_arg = 45 ∷ 104 ∷ []

abbrev pub same : Str → Str → Bool
same a b = elim (cmp a b) [ equal ↦ true | _ ↦ false ]

pub data Flag : Type 0 where
  addr_flag plugin_flag help_flag unknown_flag : Flag

unfoldable pub help_of : Str → Flag
help_of arg =
    if same arg help_arg
    then help_flag
    else (if same arg short_help_arg then help_flag else unknown_flag)

unfoldable pub flag_of : Str → Flag
flag_of arg =
    if same arg addr_arg
    then addr_flag
    else (if same arg plugin_arg then plugin_flag else help_of arg)

pub data Parsed : Type 0 where
  options : Options → Parsed
  help : Parsed
  unknown : Str → Parsed

-- An option without its value is an unknown argument.
unfoldable pub parse_last : Str → Flag → Parsed
parse_last arg help_flag = help
parse_last arg _ = unknown arg

unfoldable pub parse : Options → List Str → Parsed
parse o [] = options o
parse o (arg ∷ []) = parse_last arg (help_of arg)
parse o (arg ∷ value ∷ rest) = elim (flag_of arg) [
  | addr_flag ↦ parse (record o { addr = value }) rest
  | plugin_flag ↦ parse (record o { plugin_paths = o.plugin_paths ++ (value ∷ []) }) rest
  | help_flag ↦ help
  | unknown_flag ↦ unknown arg
]

-- The first path that does not load ends the loop.
unfoldable pub load_all : (Str → Option ℕ) → Handles → List Str → Handles × Bool
load_all dlopen hs [] = (hs, true)
load_all dlopen hs (path ∷ rest) =
    let (hs', loaded) = load_plugin hs path (dlopen path) in
    elim loaded [ true ↦ load_all dlopen hs' rest | false ↦ (hs', false) ]

-- The exit code.
unfoldable pub code_of : (Str → Option ℕ) → Bool → Parsed → ℕ
code_of dlopen starts help = 0
code_of dlopen starts (unknown arg) = 1
code_of dlopen starts (options o) =
    let (hs, loaded) = load_all dlopen [] o.plugin_paths in
    if loaded then (if starts then 0 else 1) else 1

-- The arguments that name an address and plugins.
unfoldable pub plugin_args : List Str → List Str
plugin_args [] = []
plugin_args (path ∷ rest) = plugin_arg ∷ path ∷ plugin_args rest

parse-plugin_args :
    (o : Options) (paths : List Str)
    → parse o (plugin_args paths) ≡ options (record o { plugin_paths = o.plugin_paths ++ paths })
unfolding parse plugin_args flag_of cmp
parse-plugin_args o [] =
    ap (λ (ps : List Str). options (record o { plugin_paths = ps }))
      (sym (append-nil o.plugin_paths))
parse-plugin_args o (path ∷ rest) =
    parse-plugin_args (record o { plugin_paths = o.plugin_paths ++ (path ∷ []) }) rest
    ∙ ap (λ (ps : List Str). options (record o { plugin_paths = ps }))
        (append_assoc o.plugin_paths (path ∷ []) rest)

-- The server listens on the address and loads the plugins, in their order, that its arguments name.
pub parse_args :
    (addr : Str) (paths : List Str)
    → parse default_options (addr_arg ∷ addr ∷ plugin_args paths)
      ≡ options (record { addr = addr; plugin_paths = paths })
unfolding parse flag_of cmp
parse_args addr paths = parse-plugin_args (record default_options { addr = addr }) paths
