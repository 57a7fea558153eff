-- ===== src/Drivers/ParsingTest.antt =====
-- parsing-test.c: test_parse_request_string and test_parse_response_string.
use http_exercise.Base.{Bool, List, [], ◌∷◌, ◌++◌}
use http_exercise.Base.Int.{ℤ}
use http_exercise.Exec.{Exec, ok, ◌>>=◌}
use http_exercise.Constants.{Status, job_request_buffer_size}
use http_exercise.CStr.{Bytes, codes, cstr, strncpy}
use http_exercise.Parsing.{HttpVersion}
use http_exercise.Parsing.Request.{Fields, parse_request_string}
use http_exercise.Parsing.Response.{parse_response_header}

abbrev pub wget_request : Bytes
wget_request =
    codes "GET http://none.exist.com/index.html HTTP/1.1\r\n"
    ++ (codes "Host: none.exist.com\r\n"
        ++ (codes "User-Agent: Wget/1.20.3 (linux-gnu)\r\n"
            ++ (codes "Accept: */*\r\n"
                ++ (codes "Accept-Language: en-US,en;q=0.5\r\n"
                    ++ (codes "Accept-Encoding: identity\r\n"
                        ++ (codes "Connection: keep-alive\r\n"
                            ++ (codes "Proxy-Connection: Keep-Alive\r\n")))))))

abbrev pub https_request : Bytes
https_request =
    codes "GET https://none.exist.com/index.html HTTP/1.1\r\n"
    ++ (codes "Host: none.exist.com\r\n"
        ++ (codes "User-Agent: Wget/1.20.3 (linux-gnu)\r\n"
            ++ (codes "Accept: */*\r\n"
                ++ (codes "Accept-Language: en-US,en;q=0.5\r\n"
                    ++ (codes "Accept-Encoding: identity\r\n"
                        ++ (codes "Connection: keep-alive\r\n"
                            ++ (codes "Proxy-Connection: Keep-Alive\r\n")))))))

abbrev pub prefetch_request : Bytes
prefetch_request =
    codes "GET http://prefetch.job.com/file.jpg HTTP/1.1\r\n"
    ++ (codes "Host: prefetch.job.com\r\n" ++ (codes "Accept: */*\r\n"))

abbrev pub no_host_request : Bytes
no_host_request = codes "GET http://lazy.request.no.host/file.jpg HTTP/1.1\r\n"

abbrev pub port_request : Bytes
port_request = codes "GET http://host.name.funky.port:2684/file.jpg HTTP/1.1\r\n"

abbrev pub host_only_request : Bytes
host_only_request = codes "GET http://all.i.have.is.hostname.com/ HTTP/1.1\r\n"

abbrev pub whole_response : Bytes
whole_response =
    codes "HTTP/1.1 200 OK\r\n"
    ++ (codes "Date: Sat, 09 Apr 2022 20:22:04 GMT\r\n"
        ++ (codes "Server: Apache/2.4.6 (CentOS) OpenSSL/1.0.2k-fips mod_fcgid/2.3.9 PHP/5.4.16\r\n"
            ++ (codes "Last-Modified: Wed, 13 Nov 2019 17:15:57 GMT\r\n"
                ++ (codes "ETag: \"d14-5973d84996d40\"\r\n"
                    ++ (codes "Accept-Ranges: bytes\r\n"
                        ++ (codes "Content-Length: 3348\r\n"
                            ++ (codes "Content-Type: text/html; charset=UTF-8\r\n"
                                ++ (codes "\r\n"
                                    ++ (codes "<head>\n"
                                        ++ (codes
                                              "<link rel=\"shortcut icon\" href=\"graphics/html.gif\" type=\"image/gif\" />\n"
                                            ++ (codes
                                                  "<meta http-equiv=\"Content-Type\" content=\"text/html; charset=iso-8859-1\" />\n"
                                                ++ (codes
                                                      "<meta name=\"description\" content=\"Website short description.\" />\n"
                                                    ++ (codes
                                                          "<meta name=\"keywords\" content=\"website main keywords\" />\n"
                                                        ++ (codes
                                                            "\t<title>Welcome to SHS</title>\n"
                                                            ++ (codes
                                                            "<script type=\"text/javascript\" src=\"http://ajax.googleapis.com/ajax/libs/jquery/1.4/jquery.min.js\"></script>\n"
                                                            ++ (codes "<script>\n"
                                                            ++ (codes
                                                            "\t!window.jQuery && document.write('<script src=\"jquery-1.4.3.min.js\"><\\/script>');\n"
                                                            ++ (codes "</script>\n"
                                                            ++ (codes
                                                            "<script type=\"text/javascript\" src=\"./fancybox/jquery.mousewh")))))))))))))))))))

abbrev pub not_found_response : Bytes
not_found_response =
    codes "HTTP/1.1 404 Not Found\r\n"
    ++ (codes "Date: Sat, 09 Apr 2022 20:14:25 GMT\r\n"
        ++ (codes "Server: Apache/2.4.6 (CentOS) OpenSSL/1.0.2k-fips mod_fcgid/2.3.9 PHP/5.4.16\r\n"
            ++ (codes "Content-Length: 214\r\n"
                ++ (codes "Content-Type: text/html; charset=iso-8859-1\r\n"
                    ++ (codes "\r\n"
                        ++ (codes "<!DOCTYPE HTML PUBLIC \"-//IETF//DTD HTML 2.0//EN\">\n"
                            ++ (codes "<html><head>\n"
                                ++ (codes "<title>404 Not Found</title>\n"
                                    ++ (codes "</head><body>\n"
                                        ++ (codes "<h1>Not Found</h1>\n"
                                            ++ (codes
                                                  "<p>The requested URL /files/done.exist was not found on this server.</p>\n"
                                                ++ (codes "</body></html>\n"
                                                    ++ (codes "\r\n")))))))))))))

abbrev pub bare_response : Bytes
bare_response =
    codes "HTTP/1.1 404 Not Found\r\n"
    ++ (codes "Date: Sat, 09 Apr 2022 19:36:17 GMT\r\n"
        ++ (codes
            "Server: Apache/2.4.6 (CentOS) OpenSSL/1.0.2k-fips mod_fcgid/2.3.9 PHP/5.4.16\r\n"))

abbrev pub short_response : Bytes
short_response = codes "Content-Length: 9\r\n" ++ (codes "\r\n" ++ (codes "123456789"))

abbrev pub text_response : Bytes
text_response =
    codes "HTTP/1.1 200 OK\r\n"
    ++ (codes "Date: Sat, 09 Apr 2022 20:09:07 GMT\r\n"
        ++ (codes "Server: Apache/2.4.6 (CentOS) OpenSSL/1.0.2k-fips mod_fcgid/2.3.9 PHP/5.4.16\r\n"
            ++ (codes "Last-Modified: Tue, 01 Sep 2015 15:49:52 GMT\r\n"
                ++ (codes "ETag: \"29-51eb1802c8800\"\r\n"
                    ++ (codes "Accept-Ranges: bytes\r\n"
                        ++ (codes "Content-Length: 41\r\n"
                            ++ (codes "Content-Type: text/plain; charset=UTF-8\r\n"
                                ++ (codes "\r\n"
                                    ++ (codes "This is a text File. Welcome to My Server")))))))))

-- What a case of the test prints: the return value, is_get, the URL, the host, the version and
-- keep_alive.
pub record Printed : Type 0 where
  pub result : Status
  pub is_get : Bool
  pub url : Bytes
  pub hostname : Bytes
  pub version : HttpVersion
  pub keep_alive : Bool

-- A case: the request goes into the buffer, is parsed, and the results are printed. The buffers are
-- passed on to the next case.
unfoldable pub request_case : Bytes × Fields → Bytes → Exec (Printed × Bytes × Fields)
request_case (request_string, locals) text = do
  filled ← strncpy request_string (text ++ 0 ∷ []) 0 job_request_buffer_size
  parsed ← parse_request_string filled locals
  url ← cstr parsed.2.path
  hostname ← cstr parsed.2.hostname
  ok (
    record {
      result = parsed.0;
      is_get = parsed.2.is_get;
      url = url;
      hostname = hostname;
      version = parsed.2.version;
      keep_alive = parsed.2.proxy_keep_alive;
    },
    parsed.1,
    parsed.2,
  )

unfoldable pub request_cases : Bytes × Fields → List Bytes → Exec (List Printed)
request_cases buffers [] = ok []
request_cases buffers (text ∷ texts) = do
  printed ← request_case buffers text
  rest ← request_cases (printed.1, printed.2) texts
  ok (printed.0 ∷ rest)

-- The buffers are what the local variables hold at first.
unfoldable pub test_parse_request_string : Bytes × Fields → Exec (List Printed)
test_parse_request_string buffers = request_cases buffers (
    wget_request ∷ https_request ∷ prefetch_request ∷ no_host_request ∷ port_request
    ∷ host_only_request ∷ [])

-- the header length and the content length of each case
unfoldable pub response_cases : Bytes → List Bytes → Exec (List (ℤ × ℤ))
response_cases response_string [] = ok []
response_cases response_string (text ∷ texts) = do
  filled ← strncpy response_string (text ++ 0 ∷ []) 0 job_request_buffer_size
  lengths ← parse_response_header filled
  rest ← response_cases filled texts
  ok (lengths ∷ rest)

unfoldable pub test_parse_response_string : Bytes → Exec (List (ℤ × ℤ))
test_parse_response_string response_string =
    response_cases response_string
      (whole_response ∷ not_found_response ∷ bare_response ∷ short_response ∷ text_response ∷ [])
