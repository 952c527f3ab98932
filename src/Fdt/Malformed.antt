-- ===== src/Fdt/Malformed.antt =====
-- Attributes that are no numbers, in flutelib/fdt.c.
use route.Base.{ℕ, ◌≡◌, false, List}
use route.Numbers.{strtoull}
use route.Fdt.{File}
use route.Fdt.Instance.{Instance, Parser}
use route.Fdt.Exchange.{going}

abbrev IsNoNumber : List ℕ → Type 0
IsNoNumber value = (strtoull value).ended ≡ false

-- What such a length leaves of a file.
abbrev cut_short : File → List ℕ → File
cut_short f value = record f { content_len = (strtoull value).value }

abbrev left_open : Instance → List File → File → List ℕ → Parser
left_open i files f value = record (going i files (cut_short f value)) {
  erange = (strtoull value).erange;
}
