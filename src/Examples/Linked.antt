-- ===== src/Examples/Linked.antt =====
-- The validator on its way back from a tip.
use didem.Base.{
  ◌<◌, Result, ℕ, [], ◌∷◌, ok, err, ◌≡◌, refl, arith, nat_eq, if◌then◌else◌, ◌==◌, string_eq,
  not_found,
}
use didem.Storage.Chain.{Block}
use didem.Storage.Store.{Store}
use didem.Storage.Validator.{fetch}
use didem.Storage.Validator.TipLaws.{IsLinked, StartsAt, fetch-IsLinked}
use didem.Examples.Engine.{small_store}
use didem.Examples.Objects.{small_judge, a_block}

-- two blocks, one above the other
abbrev top_block : Block
top_block = record a_block { id = 8; parent = 7; height = 2 }

abbrev block_at : ℕ → Result Block
block_at n = if n == 7 then ok a_block else if n == 8 then ok top_block else err not_found

abbrev two_blocks : Store Unit
two_blocks = record small_store { get_block = λ s id. block_at id }

fetched :
    fetch two_blocks small_judge 3 tt 7 top_block (top_block ∷ []) ≡ ok (a_block ∷ top_block ∷ [])
unfolding fetch
fetched = refl

fetch-IsLinked_example :
    IsLinked two_blocks small_judge tt (a_block ∷ top_block ∷ [])
    × StartsAt two_blocks small_judge tt 7 (a_block ∷ top_block ∷ [])
fetch-IsLinked_example = fetch-IsLinked two_blocks small_judge tt 3 7 top_block [] tt fetched

heights_rise :
    (i : ℕ) (b p : Block) → block_at i ≡ ok b → block_at b.parent ≡ ok p → p.height < b.height
heights_rise i b p h k = ground arith

above : 2 < 3
above = omega arith
