-- ===== src/Prelude/ParseBool.antt =====
-- `strconv.ParseBool`.
use mathlib.Core.Bool.{Bool, true, false}
use mathlib.Core.Option.{Option, none, some}
use mathlib.Core.List.{List, [], ◌∷◌}
use hetdns.Prelude.Tests.{if◌then◌else◌}
use hetdns.Prelude.Lists.{any}
use hetdns.Prelude.Text.{Text, text, text_eq}

abbrev true_texts : List Text
true_texts = text "1" ∷ text "t" ∷ text "T" ∷ text "true" ∷ text "TRUE" ∷ text "True" ∷ []

abbrev false_texts : List Text
false_texts = text "0" ∷ text "f" ∷ text "F" ∷ text "false" ∷ text "FALSE" ∷ text "False" ∷ []

unfoldable pub parse_bool : Text → Option Bool
parse_bool s =
    if any (text_eq s) true_texts
    then some true
    else if any (text_eq s) false_texts
    then some false
    else none
