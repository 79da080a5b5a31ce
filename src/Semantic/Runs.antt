-- ===== src/Semantic/Runs.antt =====
-- Concrete runs of aicl/semantic, and the theorems at concrete inputs.
use mathlib.Core.Option
use aicl.Common.{refl, some, ◌≡◌}
use aicl.Semantic.Intents.{filter_intent, last_with, opcode_to_intent}

-- Nine intents share the opcode of "execute", which is read as the last of them.
execute_is_filter : opcode_to_intent 0x46 ≡ some filter_intent
unfolding opcode_to_intent last_with
execute_is_filter = refl
