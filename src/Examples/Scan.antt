-- ===== src/Examples/Scan.antt =====
-- xmlfsm.c on small stanzas.
use mukite.Common.{◌≡◌, refl, true, none, some, lit, Bytes, ok, bytes_eq, length}
use mukite.Xmlfsm.{
  Span, xmlfsm_skip_node, xmlfsm_skip_attrs, xmlfsm_skipto_attr, xmlfsm_skipto_node,
}

abbrev inner : Bytes
inner = lit "<body x='a>b' y=\"/\">hi <b/></body><subject a='1'/>"

abbrev whole : Span
whole = record { start = 0; stop = length inner }

skip_body : xmlfsm_skip_node inner whole ≡ ok (some 34)
unfolding xmlfsm_skip_node
skip_body = refl

skip_short : xmlfsm_skip_node inner (record whole { stop = 33 }) ≡ ok none
unfolding xmlfsm_skip_node
skip_short = refl

attrs_of_body : xmlfsm_skip_attrs inner 5 ≡ ok (true, 20)
unfolding xmlfsm_skip_attrs
attrs_of_body = refl

find_y :
    xmlfsm_skipto_attr (lit "y") inner 5
    ≡ ok (
      some (record {
        name = record { start = 14; stop = 15 };
        value = record { start = 17; stop = 18 };
      }),
      19,
    )
unfolding xmlfsm_skipto_attr bytes_eq
find_y = refl

find_subject :
    xmlfsm_skipto_node (lit "subject") inner whole
    ≡ ok (some (record { start = 34; stop = length inner }, length inner))
unfolding xmlfsm_skipto_node bytes_eq
find_subject = refl
