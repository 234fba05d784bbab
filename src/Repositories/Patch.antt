-- ===== src/Repositories/Patch.antt =====
-- The SET lists that the update statements put together.
use pawspective_backend.Base.{Bool, true, false, not, String, List, [], ◌∷◌, ◌==◌, text_Eq}

-- `if (!value.empty()) updates.push_back(…)`
unfoldable pub given : {A : Type 0} → Bool → A → List A
given true a = a ∷ []
given false a = []

-- One assignment of a SET list.
abbrev pub Assignment : Type 0 → Type 0
Assignment Row = Row → Row

abbrev pub assign : {Row : Type 0} → List (Assignment Row) → Row → Row
assign [] r = r
assign (f ∷ fs) r = assign fs (f r)

abbrev pub text_given : String → Bool
text_given text = not (text == "")
