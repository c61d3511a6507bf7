-- ===== src/Dwarf/Encoded/Total.antt =====
-- Reading an encoded pointer stays inside the bytes and moves forward, for every encoding and every base.
use libunwinder.Prelude.{Bool, true, false, ℕ}
use libunwinder.Dwarf.Cursor.{Parser, avma_here, ◌>>=◌}
use libunwinder.Dwarf.Cursor.Reads.{
  IsReader, IsReader-avma_here, IsReader-pure, IsReader-else, reader_rules,
}
use libunwinder.Dwarf.Cursor.Consumes.{
  IsConsumer, IsConsumer-fail, IsConsumer-else, IsConsumer-bind, IsConsumer-after, consumer_rules,
}
use libunwinder.Dwarf.Leb128.Total.{read_uleb128-IsConsumer, read_sleb128-IsConsumer}
use libunwinder.Dwarf.Encoded.{
  read_raw, apply_base, read_encoded_impl, read_encoded, read_encoded_personality,
}

read_raw-IsConsumer : (format enc : ℕ) → IsConsumer (read_raw format enc)
unfolding read_raw
read_raw-IsConsumer format enc =
    search (consumer_rules, read_uleb128-IsConsumer, read_sleb128-IsConsumer) depth 14

apply_base-IsReader :
    (app enc raw pcrel text data_base func : ℕ)
    → IsReader (apply_base app enc raw pcrel text data_base func)
unfolding apply_base
apply_base-IsReader app enc raw pcrel text data_base func = search reader_rules depth 8

from_here : (f : ℕ → Parser ℕ) → ((base : ℕ) → IsConsumer (f base)) → IsConsumer (avma_here >>= f)
from_here f = IsConsumer-after avma_here f IsReader-avma_here

module _ (enc text data_base func : ℕ) where
  read_encoded_impl-IsConsumer :
      (allow : Bool) → IsConsumer (read_encoded_impl enc text data_base func allow)
  unfolding read_encoded_impl
  read_encoded_impl-IsConsumer allow =
      search
        (
          IsConsumer-fail, IsConsumer-else, IsConsumer-bind, from_here, read_raw-IsConsumer,
          IsReader-pure, IsReader-else, apply_base-IsReader,
        )
        depth 12

  -- `read_encoded` never panics from a cursor inside its bytes; if it succeeds it has moved
  -- forward by a byte at least, and stays inside the bytes, for every encoding and every base.
  pub read_encoded-IsConsumer : IsConsumer (read_encoded enc text data_base func)
  unfolding read_encoded
  read_encoded-IsConsumer = read_encoded_impl-IsConsumer false

  pub read_encoded-IsReader : IsReader (read_encoded enc text data_base func)
  read_encoded-IsReader = read_encoded-IsConsumer.reader

  pub read_encoded_personality-IsReader :
      IsReader (read_encoded_personality enc text data_base func)
  unfolding read_encoded_personality
  read_encoded_personality-IsReader = (read_encoded_impl-IsConsumer true).reader
