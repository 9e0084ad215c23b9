-- ===== src/Vm/Names.antt =====
-- `_sanitize_dns_name` and `_generate_vm_name`
pub mod Label
use gsm_sv.Prelude.{
  ℕ, ◌+◌, Bool, true, false, not, ◌&&◌, ◌||◌, List, [], ◌∷◌, ◌++◌, leb, ◌==◌, if◌then◌else◌, Option,
  none, some, String, str_eq,
}
use Prim.Native.Char.{code}
use gsm_sv.Models.{Text, VmTier, basic, standard, project_custom}

-- The code points of a text. `String` has its own `[]` and `∷`.
abbrev pub codes : String → Text
codes String.[] = []
codes (String.◌∷◌ c s) = code c ∷ codes s

-- `str.lower`, as far as a letter a-z can come of it: A-Z, U+0130 and U+212A.
abbrev pub lower_code : ℕ → Text
lower_code c =
    if leb 65 c && leb c 90
    then (c + 32) ∷ []
    else if c == 304
    then 105 ∷ 775 ∷ []
    else if c == 8490
    then 107 ∷ []
    else c ∷ []

pub lower : Text → Text
lower [] = []
lower (c ∷ cs) = lower_code c ++ lower cs

-- [a-z0-9-]
abbrev pub is_dns_code : ℕ → Bool
is_dns_code c = (leb 97 c && leb c 122) || (leb 48 c && leb c 57) || c == 45

-- `re.sub(r"[^a-z0-9-]", "-", name)`
pub mask : Text → Text
mask [] = []
mask (c ∷ cs) = (if is_dns_code c then c else 45) ∷ mask cs

-- `re.sub(r"-+", "-", name)`; the flag says that the code before was a hyphen.
pub squeeze : Bool → Text → Text
squeeze after [] = []
squeeze after (c ∷ cs) =
    let rest = squeeze (c == 45) cs in if after && c == 45 then rest else c ∷ rest

-- `name.strip("-")`
pub lstrip : Text → Text
lstrip [] = []
lstrip (c ∷ cs) = if c == 45 then lstrip cs else c ∷ cs

-- A code in front of a text that is stripped at its end.
abbrev pub rcons : ℕ → Text → Text
rcons c [] = if c == 45 then [] else c ∷ []
rcons c (d ∷ ds) = c ∷ d ∷ ds

pub rstrip : Text → Text
rstrip [] = []
rstrip (c ∷ cs) = rcons c (rstrip cs)

-- `name or "vm"`
abbrev pub or_vm : Text → Text
or_vm [] = 118 ∷ 109 ∷ []
or_vm (c ∷ cs) = c ∷ cs

unfoldable pub sanitize_dns_name : Text → Text
unfolding lower mask squeeze lstrip rstrip
sanitize_dns_name name = or_vm (rstrip (lstrip (squeeze false (mask (lower name)))))

-- `email.split("@")[0]`
abbrev pub local_part : Text → Text
local_part [] = []
local_part (c ∷ cs) = if c == 64 then [] else c ∷ local_part cs

-- `tier.value`
abbrev pub tier_value : VmTier → Text
tier_value basic = codes "basic"
tier_value standard = codes "standard"
tier_value project_custom = codes "project_custom"

abbrev auto_name : Text → VmTier → Text → Text × Text
auto_name username tier suffix =
    let short = sanitize_dns_name (tier_value tier) ++ 45 ∷ suffix in
    (username ++ 45 ∷ short, short)

-- The Proxmox name and the display name; `suffix` is the random suffix.
unfoldable pub generate_vm_name : String → VmTier → Option String → Text → Text × Text
unfolding sanitize_dns_name
generate_vm_name email tier none suffix =
    auto_name (sanitize_dns_name (local_part (codes email))) tier suffix
generate_vm_name email tier (some custom) suffix =
    let username = sanitize_dns_name (local_part (codes email)) in
    if str_eq custom ""
    then auto_name username tier suffix
    else (username ++ 45 ∷ sanitize_dns_name (codes custom), codes custom)
