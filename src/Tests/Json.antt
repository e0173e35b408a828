-- ===== src/Tests/Json.antt =====
-- The text of two readings.
use libklio.Prelude.{◌≡◌, refl, [], ◌∷◌}
use libklio.Prelude.Int.{pos}
use libklio.Json.{export_json, write_pairs}

export_test :
    export_json (λ t. "10") (λ v. "4") ((pos 10, 4) ∷ (pos 20, 4) ∷ []) ≡ "[[10,4],[10,4]]\n"
unfolding export_json write_pairs
export_test = refl
