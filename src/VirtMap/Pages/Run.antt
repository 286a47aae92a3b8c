-- ===== src/VirtMap/Pages/Run.antt =====
-- The actions of a `PageMappingIterator` until it ends: they map, or unmap, its zones, and nothing else.
use aurora_os_old.Prelude.{ℕ, ◌+◌, ◌-◌, ◌/◌, none, some, List, [], ◌∷◌, if◌then◌else◌}
use aurora_os_old.Mem.{PageSize, contains}
use aurora_os_old.VirtMap.{flags_present}
use aurora_os_old.VirtMap.Pages.{Pmit, action, Action, Table}
use aurora_os_old.VirtMap.Pages.Frames.{frame_at, shorter, IsPmit}

-- What a zone makes of the table: its addresses are mapped to those of its physical zone, in order, with
-- its flags, or are unmapped where these are not present.
unfoldable pub set_zone : Pmit → Table → Table
set_zone p t x =
    if contains p.virt_zone x
    then if flags_present p.flags
      then some (p.phys_zone.addr + (x - p.virt_zone.addr), p.flags)
      else none
    else t x

unfoldable pub set_zones : List Pmit → Table → Table
set_zones [] t = t
set_zones (p ∷ ps) t = set_zones ps (set_zone p t)

abbrev pub AllPmit : List Pmit → Type 0
AllPmit [] = Unit
AllPmit (p ∷ ps) = IsPmit p × AllPmit ps

-- the pages of the zones
abbrev pub pages : List Pmit → ℕ
pages [] = 0
pages (p ∷ ps) = p.virt_zone.size / 4096 + pages ps

-- The zone without a page at the start of both
abbrev rest : Pmit → PageSize → Pmit
rest p s = record p { phys_zone = shorter p.phys_zone s; virt_zone = shorter p.virt_zone s }

-- the action for a page at the start of a zone
abbrev head : Pmit → PageSize → Action
head p s = action p.flags (frame_at p.phys_zone.addr s, frame_at p.virt_zone.addr s)
