-- ===== src/Hvmc/Lexer/Words.antt =====
-- The keywords of read_ident_or_keyword.
use hvmsys.Base.{List, [], ◌∷◌, if◌then◌else◌}
use hvmsys.Base.Text.{Bytes, text, same_text}
use hvmsys.Hvmc.Token.{
  TokenKind, ident_tok, if_kw, else_kw, while_kw, for_kw, do_kw, switch_kw, case_kw, default_kw,
  break_kw, continue_kw, return_kw, goto_kw, int_kw, char_kw, short_kw, long_kw, unsigned_kw,
  signed_kw, void_kw, static_kw, extern_kw, const_kw, volatile_kw, typedef_kw, struct_kw, sizeof_kw,
}

-- The comparisons in their order.
unfoldable pub keywords : List (Bytes × TokenKind)
keywords =
    (text "if", if_kw)
    ∷ (text "else", else_kw)
    ∷ (text "while", while_kw)
    ∷ (text "for", for_kw)
    ∷ (text "do", do_kw)
    ∷ (text "switch", switch_kw)
    ∷ (text "case", case_kw)
    ∷ (text "default", default_kw)
    ∷ (text "break", break_kw)
    ∷ (text "continue", continue_kw)
    ∷ (text "return", return_kw)
    ∷ (text "goto", goto_kw)
    ∷ (text "int", int_kw)
    ∷ (text "char", char_kw)
    ∷ (text "short", short_kw)
    ∷ (text "long", long_kw)
    ∷ (text "unsigned", unsigned_kw)
    ∷ (text "signed", signed_kw)
    ∷ (text "void", void_kw)
    ∷ (text "static", static_kw)
    ∷ (text "extern", extern_kw)
    ∷ (text "const", const_kw)
    ∷ (text "volatile", volatile_kw)
    ∷ (text "typedef", typedef_kw)
    ∷ (text "struct", struct_kw)
    ∷ (text "sizeof", sizeof_kw)
    ∷ []

unfoldable pub find_word : List (Bytes × TokenKind) → Bytes → TokenKind
find_word [] word = ident_tok
find_word ((w, k) ∷ table) word = if same_text word w then k else find_word table word

unfoldable pub word_kind : Bytes → TokenKind
unfolding keywords find_word
word_kind word = find_word keywords word
