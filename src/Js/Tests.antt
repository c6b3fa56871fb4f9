-- ===== src/Js/Tests.antt =====
-- Dates and integers of JavaScript on known inputs.
use mach.Base.{◌≡◌, refl, none, some}
use mach.Base.Int.{pos, negsuc}
use mach.Js.Text.{text}
use mach.Js.Date.{to_iso_string, iso_day}
use mach.Js.BigInt.{parse, print}

date_tests :
    (to_iso_string 1709210096789 ≡ text "2024-02-29T12:34:56.789Z")
    × (iso_day 0 ≡ text "1970-01-01")
    × (iso_day 1735689599999 ≡ text "2024-12-31")
unfolding iso_day text
date_tests = (refl, refl, refl)

integer_tests :
    (parse (text " 0x1F ") ≡ some (pos 31))
    × (parse (text "-12") ≡ some (negsuc 11))
    × (parse (text "") ≡ some (pos 0))
    × (parse (text "1.5") ≡ none)
    × (print (negsuc 119) ≡ text "-120")
    × (parse (text "-0x1") ≡ none)
unfolding parse print text
integer_tests = (refl, refl, refl, refl, refl, refl)
