-- ===== src/Metrics/Config.antt =====
-- plugin/rprom/config.go: the options of the metrics. A registerer and a gatherer are names of values
-- of Prometheus, buckets are left as numbers.
use regatta_go.Prelude.{
  ℕ, ◌==◌, Bool, true, false, Option, none, some, List, [], ◌∷◌, map, if◌then◌else◌,
}
use regatta_go.Go.{Bytes, codes, is_empty}

-- `Histogram`, with another value of its uint8.
pub data Histogram : Type 0 where
  read_time write_time : Histogram
  other_histogram : ℕ → Histogram

abbrev pub histogram_eq : Histogram → Histogram → Bool
histogram_eq read_time read_time = true
histogram_eq read_time write_time = false
histogram_eq read_time (other_histogram n) = false
histogram_eq write_time read_time = false
histogram_eq write_time write_time = true
histogram_eq write_time (other_histogram n) = false
histogram_eq (other_histogram m) read_time = false
histogram_eq (other_histogram m) write_time = false
histogram_eq (other_histogram m) (other_histogram n) = m == n

pub record Cfg : Type 0 where
  pub namespace : Bytes
  pub subsystem : Bytes
  pub reg : ℕ
  pub gatherer : ℕ
  pub with_client_label : Bool
  pub histograms : List (Histogram × List ℕ)
  pub def_buckets : List ℕ

pub record HistogramOpts : Type 0 where
  pub enable : Histogram
  pub buckets : List ℕ

abbrev pub Opt : Type 0
Opt = Cfg → Cfg

-- A write to the map: the entry of the key is replaced.
unfoldable pub put_entry :
    Histogram → List ℕ → List (Histogram × List ℕ) → List (Histogram × List ℕ)
put_entry h bs [] = (h, bs) ∷ []
put_entry h bs ((k, v) ∷ m) =
    let rest = put_entry h bs m in if histogram_eq h k then (h, bs) ∷ m else (k, v) ∷ rest

unfoldable pub lookup : Histogram → List (Histogram × List ℕ) → Option (List ℕ)
lookup h [] = none
lookup h ((k, v) ∷ m) = let rest = lookup h m in if histogram_eq h k then some v else rest

-- The loop of `HistogramsFromOpts`.
unfoldable pub put_all : List HistogramOpts → List (Histogram × List ℕ) → List (Histogram × List ℕ)
unfolding put_entry
put_all [] m = m
put_all (h ∷ hs) m = put_all hs (put_entry h.enable h.buckets m)

unfoldable pub histograms_from_opts : List HistogramOpts → Opt
unfolding put_all
histograms_from_opts hs c = record c { histograms = put_all hs [] }

-- `Histograms`
unfoldable pub enable_histograms : List Histogram → Opt
unfolding histograms_from_opts
enable_histograms hs = histograms_from_opts (map (λ h. record { enable = h; buckets = [] }) hs)

unfoldable pub set_namespace : Bytes → Opt
set_namespace namespace c = record c { namespace = namespace }

unfoldable pub registry : ℕ → Opt
registry rg c = record c { reg = rg; gatherer = rg }

unfoldable pub registerer : ℕ → Opt
registerer reg c = record c { reg = reg }

unfoldable pub set_gatherer : ℕ → Opt
set_gatherer gatherer c = record c { gatherer = gatherer }

unfoldable pub with_client_label : Opt
with_client_label c = record c { with_client_label = true }

unfoldable pub set_subsystem : Bytes → Opt
set_subsystem ss c = record c { subsystem = ss }

unfoldable pub set_buckets : List ℕ → Opt
set_buckets buckets c = record c { def_buckets = buckets }

apply_all : List Opt → Cfg → Cfg
apply_all [] c = c
apply_all (f ∷ fs) c = apply_all fs (f c)

-- `newCfg`, with the default registerer, gatherer and buckets.
unfoldable pub new_cfg : ℕ → ℕ → List ℕ → List Opt → Cfg
unfolding apply_all
new_cfg reg gatherer buckets opts = apply_all opts (record {
  namespace = codes "regatta";
  subsystem = [];
  reg = reg;
  gatherer = gatherer;
  with_client_label = false;
  histograms = [];
  def_buckets = buckets;
})

or_default : List ℕ → Option (List ℕ) → List ℕ
or_default d none = d
or_default d (some bs) = if is_empty bs then d else bs

-- `getHistogramBuckets` of `OnNewClient`.
unfoldable pub get_histogram_buckets : Cfg → Histogram → List ℕ
unfolding or_default lookup
get_histogram_buckets c h = or_default c.def_buckets (lookup h c.histograms)
