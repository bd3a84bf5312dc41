-- ===== src/Tests/SymbolTests.antt =====
-- The properties of symbols, at a dynamic symbol on the heap.
use magnus.Prelude.{ℕ, ◌≡◌, ◌∙◌, ◌+◌, ◌*◌, refl, inl, true, ok, if◌then◌else◌, ◌==◌, arith}
use magnus.Ruby.{Heap, modern}
use magnus.Value.{is_static_symbol, rb_type}
use magnus.Value.Tags.{is_static_symbol_word}
use magnus.Symbol.{SymbolCalls, from_value, is_static, as_static, static_from_value, into_id_with}
use magnus.Symbol.Identity.{IsSymbolCalls, static_from_value-as_static}

-- A number's symbol is static, and a symbol on the heap has the number of its address.
abbrev calls : SymbolCalls
calls = record {
  rb_check_id = λ v. if v == 0x2000 then 9 else 0;
  rb_sym2id = λ v. v;
  rb_sym2str = λ v. v;
  rb_intern_str = λ v. v;
  rb_id2sym = λ id. id * 256 + 12;
}

symbol_word : (id : ℕ) → is_static_symbol modern (id * 256 + 12) ≡ true
symbol_word id = is_static_symbol_word modern (inl refl) (id * 256 + 12) ∙ ground arith

calls-IsSymbolCalls : IsSymbolCalls modern calls
unfolding is_static into_id_with
calls-IsSymbolCalls = record {
  intern_law = λ v e. refl;
  static_law = λ id. rw (symbol_word id) refl;
  number_law = λ id. rw (symbol_word id) (omega arith);
}

abbrev heap : Heap
heap = record { flags = λ w. 0x14; klass = λ w. 0 }

static_from_value-as_static_example :
    static_from_value modern calls heap 0x2000 ≡ ok (as_static modern calls 0x2000)
unfolding from_value rb_type is_static_symbol
static_from_value-as_static_example = static_from_value-as_static modern calls heap 0x2000 refl
