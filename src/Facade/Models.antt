-- ===== src/Facade/Models.antt =====
-- The listing of models: apps/server/src/csapi/protocol.ts, `buildModelsResponse`. The fields of an
-- entry that are the same for all are left out.
pub mod Listing
use cursor_gateway.Base.{Bool, List, [], ◌∷◌, any, if◌then◌else◌}
use cursor_gateway.Text.{Text, same_units, codes}

-- `seen.has(id)`
unfoldable pub seen : Text → List Text → Bool
unfolding same_units
seen id ids = any (same_units id) ids

-- The loop, given the ids that it has pushed.
unfoldable pub listed_models : (pushed : List Text) → List Text → List Text
unfolding seen
listed_models pushed [] = []
listed_models pushed (id ∷ ids) =
    let again = listed_models pushed ids in
    let rest = listed_models (id ∷ pushed) ids in if seen id pushed then again else id ∷ rest

-- `buildModelsResponse`
unfoldable pub build_models_response : List Text → List Text
unfolding listed_models
build_models_response ids = listed_models [] (codes "auto" ∷ ids)
