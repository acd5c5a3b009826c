-- ===== src/Loader/Tests.antt =====
-- The loader at a small machine.
use gogoboot.Base.{ℕ, ◌+◌, refl, true, inl, List, [], ◌∷◌, arith}
use gogoboot.Ram.Range.{IsClear}
use gogoboot.Loader.{bounce_expand, load_data}
use gogoboot.Loader.Buffer.{Expansion}
use gogoboot.Loader.Bounce.{bounce_expand-Expansion}
use gogoboot.Loader.Direct.{Loading}
use gogoboot.Loader.Segment.{load_data-Loading}
use gogoboot.Loader.Sample.{
  memory_api, IsMemory, memory_api-IsReliable, layout, loader0, loader0-IsReady,
}

abbrev content : List ℕ
content = 90 ∷ 91 ∷ 1 ∷ 2 ∷ 3 ∷ 4 ∷ 5 ∷ 6 ∷ 7 ∷ 8 ∷ 9 ∷ 10 ∷ []

-- A buffer for the bytes from 2041 to gogoboot's end.
bounce_expand-Expansion_example :
    Expansion 4160 2 2048 2041 7 loader0 (bounce_expand 2041 7 loader0)
bounce_expand-Expansion_example =
    bounce_expand-Expansion 4160 2 2048 2041 7 loader0 loader0-IsReady (inl refl) (omega arith)
      (omega arith)

-- Ten bytes and six zeros from 2041 on, of which gogoboot's own memory takes the first seven.
segment-IsClear : IsClear layout 2041 (2041 + 16) true
segment-IsClear = record {
  in_ram = omega arith;
  below_heap = omega arith;
  behind_rom = omega arith;
  behind_gogoboot = inl refl;
}

load_data-Loading_example :
    Loading IsMemory 4160 2 2048 content 2041 2 10 16 loader0
      (load_data memory_api layout 2041 2 10 16 (content, 0) loader0)
load_data-Loading_example =
    load_data-Loading memory_api IsMemory memory_api-IsReliable content 4160 2 layout 2041 2 10 16 0
      (content, 0) loader0 loader0-IsReady refl (λ _. omega arith) (omega arith) (omega arith)
      segment-IsClear (omega arith) (omega arith) (inl refl)
