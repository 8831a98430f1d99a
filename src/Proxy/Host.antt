-- ===== src/Proxy/Host.antt =====
-- A host on which others listen on some ports, for concrete runs of the manager.
use newt.Prelude.{◌||◌, Option, none, some, List, ℤ, int_eq, if◌then◌else◌, arith}
use newt.Prelude.GoMap.{elem}
use newt.Proxy.{Net}

abbrev pub listen_beside : List ℤ → List ℤ → ℤ → Option ℤ
listen_beside taken used port = if elem port used || elem port taken then none else some port

abbrev pub host : List ℤ → List ℤ → Net
host tcp udp = record {
  taken_tcp = tcp;
  taken_udp = udp;
  listen_tcp = listen_beside tcp;
  listen_udp = listen_beside udp;
  listen_tcp-free = λ used port p unused free. ground arith;
  listen_udp-free = λ used port p unused free. ground arith;
  listen_tcp-in_use = λ used port u. ground arith;
  listen_udp-in_use = λ used port u. ground arith;
}
